-- ===== src/Davinci/Order.antt =====
-- Hands stay in the order that davinciTiles.ts prescribes: from left to right the numbers rise, black
-- before white, wherever the jokers stand.
pub mod Insertion
use yorr.Prelude.{
  ℕ, String, ℤ, ◌≡◌, ◌≢◌, Bool, true, false, Option, none, some, List, [], ◌∷◌, arith, Dict, insert,
  lookup, lookup_or, eqb_ℤ, str_eq, eq_iff, leb, length, find, not, pos, pos_part, ltb_ℤ, ◌||◌,
  Bool-cases, Option-cases, inl, inr, refl,
}
use yorr.Davinci.Types.{State, Tile, joker, placing, is_placing, survivors, hand_of}
use yorr.Davinci.TurnFlow.{
  eliminate_wiped, reveal_tile, advance, conclude_empty, conclude_drawn, conclude_turn, place_drawn,
  timed_out,
}
use yorr.Davinci.Rules.{
  GuessInput, DecideInput, PlaceInput, with_seq, guess, guess_wrong, guess_right, decide, place,
  expire, forfeit, forfeit_base, reveal_all,
}
use yorr.Davinci.Play.{
  Input, guesses, decides, places, accept, Action, inputs, expires, forfeits, apply, run,
}
use yorr.Davinci.Tiles.{insert_at, insert_index_of}
use Insertion.{
  is_joker, IsSorted, IsSorted-insert_at_joker, IsSorted-insert_index_of, IsSorted-reveal_tile,
  IsSorted-reveal_all,
}

abbrev pub AllSorted : Dict (List Tile) → Type 0
AllSorted [] = Unit {0}
AllSorted ((p, hand) ∷ rest) = IsSorted hand × AllSorted rest

-- Every hand is sorted, and what waits to be placed by its player is a joker.
pub record IsOrdered (s : State) : Type 0 where
  pub hands : AllSorted s.hands
  pub waiting : (t : Tile) → s.phase ≡ placing → s.drawn ≡ some t → is_joker t ≡ true

pub AllSorted-insert :
    (p : String) (hand : List Tile) (m : Dict (List Tile))
    → IsSorted hand
    → AllSorted m
    → AllSorted (insert p hand m)
unfolding insert
AllSorted-insert p hand [] h s = (h, tt)
AllSorted-insert p hand ((q, other) ∷ m) h s = elim (Bool-cases (str_eq q p)) [
  | inl e ↦ rw e (h, s.1)
  | inr e ↦ rw e (s.0, AllSorted-insert p hand m h s.1)
]

IsSorted-lookup_or : (p : String) (m : Dict (List Tile)) → AllSorted m → IsSorted (lookup_or m p [])
unfolding lookup_or lookup
IsSorted-lookup_or p [] s = tt
IsSorted-lookup_or p ((q, hand) ∷ m) s = elim (Bool-cases (str_eq q p)) [
  | inl e ↦ rw (e, lookup_or) s.0
  | inr e ↦ rw (e, lookup_or) (IsSorted-lookup_or p m s.1)
]

advance-IsOrdered : (s : State) (now : ℕ) → AllSorted s.hands → IsOrdered (advance s now)
unfolding advance
advance-IsOrdered s now h =
    let out = eliminate_wiped s in
    let alive = survivors s.player_order out in
    elim (Bool-cases (leb (length alive) 1)) [
      | inl e ↦ rw e (record { hands = h; waiting = λ t p d. cc })
      | inr e ↦ rw e (record { hands = h; waiting = λ t p d. cc })
    ]

conclude_empty-IsOrdered :
    (s : State) (reveal : Bool) (now : ℕ)
    → AllSorted s.hands
    → IsOrdered (conclude_empty s reveal now)
unfolding conclude_empty
conclude_empty-IsOrdered s false now h = advance-IsOrdered s now h
conclude_empty-IsOrdered s true now h =
    let hand = hand_of s s.turn_player_id in
    elim (Option-cases (find (λ (t : Tile). not t.revealed) hand)) [
      | inl e ↦ rw (e, conclude_empty) (advance-IsOrdered s now h)
      | inr (t, e) ↦
          rw (e, conclude_empty)
            (advance-IsOrdered _ now (
              AllSorted-insert _ _ s.hands
                (IsSorted-reveal_tile t.id hand (IsSorted-lookup_or _ s.hands h)) h))
    ]

conclude_drawn-IsOrdered :
    (s : State) (t : Tile) (now : ℕ) → AllSorted s.hands → IsOrdered (conclude_drawn s t now)
unfolding conclude_drawn
conclude_drawn-IsOrdered s t now h =
    let hand = hand_of s s.turn_player_id in
    elim (Bool-cases (is_joker t)) [
      | inl e ↦ rw e (record { hands = h; waiting = λ u p d. ground arith })
      | inr e ↦ rw e (
          advance-IsOrdered _ now (
            AllSorted-insert _ _ s.hands
              (IsSorted-insert_index_of hand t e (IsSorted-lookup_or _ s.hands h)) h))
    ]

conclude_turn-IsOrdered :
    (s : State) (reveal : Bool) (now : ℕ)
    → AllSorted s.hands
    → IsOrdered (conclude_turn s reveal now)
unfolding conclude_turn
conclude_turn-IsOrdered s reveal now h = elim (Option-cases s.drawn) [
  | inl e ↦ simp (e, conclude_turn) (conclude_empty-IsOrdered s reveal now h)
  | inr (t, e) ↦ simp (e, conclude_turn) (conclude_drawn-IsOrdered s _ now h)
]

place_drawn-IsOrdered :
    (s : State) (index : ℤ) (now : ℕ)
    → s.phase ≡ placing
    → IsOrdered s
    → IsOrdered (place_drawn s index now)
unfolding place_drawn
place_drawn-IsOrdered s index now p h =
    let hand = hand_of s s.turn_player_id in
    elim (Option-cases s.drawn) [
      | inl e ↦ simp (e, place_drawn) h
      | inr (t, e) ↦
          simp (e, place_drawn)
            (elim (Bool-cases (ltb_ℤ index (pos 0) || ltb_ℤ (pos (length hand)) index)) [
              | inl out ↦ rw out h
              | inr within ↦ rw within (
                  advance-IsOrdered _ now (
                    AllSorted-insert _ _ s.hands
                      (IsSorted-insert_at_joker hand t (pos_part index) (h.waiting t p e)
                        (IsSorted-lookup_or _ s.hands h.hands))
                      h.hands))
            ])
    ]

timed_out-IsOrdered : (s : State) (now : ℕ) → IsOrdered s → IsOrdered (timed_out s now)
unfolding timed_out
timed_out-IsOrdered s now h = elim (Bool-cases (is_placing s.phase)) [
  | inr e ↦ rw e (conclude_turn-IsOrdered s _ now h.hands)
  | inl e ↦
      let placed = place_drawn s (pos (length (hand_of s s.turn_player_id))) now in
      rw e (elim (Bool-cases (is_placing placed.phase)) [
        | inl stuck ↦ rw stuck (advance-IsOrdered _ now h.hands)
        | inr moved ↦ rw moved (place_drawn-IsOrdered s _ now (ground arith) h)
      ])
]

guess_right-IsOrdered :
    (s : State) (i : GuessInput) → AllSorted s.hands → IsOrdered (guess_right s i)
unfolding guess_right
guess_right-IsOrdered s i h = record {
  hands = ground (arith, shown);
  waiting = λ t p d. ground arith;
}
  where
    shown : AllSorted (insert i.target_id (reveal_tile i.tile_id (hand_of s i.target_id)) s.hands)
    shown =
        AllSorted-insert _ _ s.hands
          (IsSorted-reveal_tile i.tile_id _ (IsSorted-lookup_or i.target_id s.hands h)) h

guess_wrong-IsOrdered :
    (s : State) (i : GuessInput) → AllSorted s.hands → IsOrdered (guess_wrong s i)
unfolding guess_wrong
guess_wrong-IsOrdered s i h =
    let done = conclude_turn-IsOrdered (with_seq s i.player_id i.input_seq) true i.now h in
    record { hands = done.hands; waiting = done.waiting }

guess-IsOrdered : (s : State) (i : GuessInput) → IsOrdered s → IsOrdered (guess s i)
unfolding guess
guess-IsOrdered s i h = grind (arith, guess_right-IsOrdered, guess_wrong-IsOrdered)

decide-IsOrdered : (s : State) (i : DecideInput) → IsOrdered s → IsOrdered (decide s i)
unfolding decide
decide-IsOrdered s i h =
    let done = conclude_turn-IsOrdered (with_seq s i.player_id i.input_seq) false i.now h.hands in
    grind (arith, done, done.hands, done.waiting)

place-IsOrdered : (s : State) (i : PlaceInput) → IsOrdered s → IsOrdered (place s i)
unfolding place
place-IsOrdered s i h =
    let seen : State = with_seq s i.player_id i.input_seq in
    let start : IsOrdered seen = record { hands = h.hands; waiting = h.waiting } in
    grind (arith, place_drawn-IsOrdered seen i.index i.now, start)

expire-IsOrdered : (s : State) (now : ℕ) → IsOrdered s → IsOrdered (expire s now)
unfolding expire
expire-IsOrdered s now h = grind (arith, timed_out-IsOrdered)

forfeit-IsOrdered : (s : State) (p : String) (now : ℕ) → IsOrdered s → IsOrdered (forfeit s p now)
unfolding forfeit forfeit_base
forfeit-IsOrdered s p now h = grind (arith, advance-IsOrdered, shown)
  where
    shown : AllSorted (insert p (reveal_all (hand_of s p)) s.hands)
    shown =
        AllSorted-insert _ _ s.hands (IsSorted-reveal_all _ (IsSorted-lookup_or p s.hands h.hands))
          h.hands

apply-IsOrdered : (s : State) (a : Action) → IsOrdered s → IsOrdered (apply s a)
unfolding apply accept
apply-IsOrdered s (inputs (guesses i)) h = guess-IsOrdered s i h
apply-IsOrdered s (inputs (decides i)) h = decide-IsOrdered s i h
apply-IsOrdered s (inputs (places i)) h = place-IsOrdered s i h
apply-IsOrdered s (expires now) h = expire-IsOrdered s now h
apply-IsOrdered s (forfeits p now) h = forfeit-IsOrdered s p now h

-- From an ordered state every history leads to an ordered state: each hand rises from left to right,
-- black before white, when its jokers are left out, and a tile that waits to be placed is a joker.
pub run-IsOrdered : (s : State) (history : List Action) → IsOrdered s → IsOrdered (run s history)
unfolding run
run-IsOrdered s [] h = h
run-IsOrdered s (a ∷ rest) h = run-IsOrdered (apply s a) rest (apply-IsOrdered s a h)
