-- ===== src/Davinci/Conservation.antt =====
-- No tile is lost and none is made: how often an id stands in the hands, the deck and the drawn tile
-- together.
use yorr.Prelude.{
  ℕ, zero, suc, ◌+◌, String, ℤ, pos, ◌≡◌, refl, ◌∙◌, ◌≢◌, inl, inr, eqb_ℤ, length, Bool-cases, ◌⊎◌,
  Bool, true, false, Option, none, some, List, [], ◌∷◌, arith, Dict, insert, lookup, lookup_or,
  head?, tail, str_eq, eq_iff, if◌then◌else◌, leb, not, ◌||◌, ◌++◌, includes, ◌<◌, ap,
}
use yorr.Davinci.Types.{State, Tile, placing, finished, is_finished, survivors, hand_of, joker}
use yorr.Davinci.Tiles.{insert_at, insert_index_of}
use yorr.Davinci.TurnFlow.{
  reveal_tile, advance, conclude_empty, conclude_drawn, conclude_turn, place_drawn, timed_out,
}
use yorr.Davinci.Rules.{
  GuessInput, guess, guess_wrong, guess_right, decide, place, expire, forfeit, forfeit_base,
  reveal_all,
}
use yorr.Davinci.Jokers.{HoldsJoker, apply-HoldsJoker}
use yorr.Davinci.Play.{
  Input, guesses, decides, places, accept, Action, inputs, expires, forfeits, apply, run,
}

unfoldable pub count : String → List Tile → ℕ
count id [] = 0
count id (t ∷ ts) = (if str_eq t.id id then 1 else 0) + count id ts

unfoldable pub count_hands : String → Dict (List Tile) → ℕ
count_hands id [] = 0
count_hands id ((p, hand) ∷ rest) = count id hand + count_hands id rest

unfoldable pub count_drawn : String → Option Tile → ℕ
count_drawn id none = 0
count_drawn id (some t) = if str_eq t.id id then 1 else 0

unfoldable pub count_tiles : String → State → ℕ
count_tiles id s = count_hands id s.hands + count id s.deck + count_drawn id s.drawn

count-insert_at :
    (id : String) (hand : List Tile) (t : Tile) (i : ℕ)
    → count id (insert_at hand t i) ≡ count_drawn id (some t) + count id hand
unfolding count count_drawn insert_at
count-insert_at id hand t zero = omega arith
count-insert_at id [] t (suc i) = omega arith
count-insert_at id (x ∷ xs) t (suc i) = omega (arith, count-insert_at id xs t i)

count-reveal_tile :
    (id x : String) (hand : List Tile) → count id (reveal_tile x hand) ≡ count id hand
unfolding count reveal_tile
count-reveal_tile id x [] = omega arith
count-reveal_tile id x (t ∷ ts) = ground (arith, count-reveal_tile id x ts)

count-reveal_all : (id : String) (hand : List Tile) → count id (reveal_all hand) ≡ count id hand
unfolding count reveal_all
count-reveal_all id [] = omega arith
count-reveal_all id (t ∷ ts) = ground (arith, count-reveal_all id ts)

count_hands-insert :
    (id p : String) (hand : List Tile) (m : Dict (List Tile))
    → count_hands id (insert p hand m) + count id (lookup_or m p [])
      ≡ count id hand + count_hands id m
unfolding count_hands insert lookup lookup_or count
count_hands-insert id p hand [] = omega arith
count_hands-insert id p hand ((q, h) ∷ m) = ground (arith, count_hands-insert id p hand m)

count-head-tail :
    (id : String) (deck : List Tile)
    → count_drawn id (head? deck) + count id (tail deck) ≡ count id deck
unfolding count count_drawn
count-head-tail id [] = omega arith
count-head-tail id (t ∷ ts) = omega arith

abbrev pub Conserves : State → State → Type 0
Conserves s t = (id : String) → count_tiles id t ≡ count_tiles id s

advance-Conserves : (s : State) (now : ℕ) → s.drawn ≡ none → Conserves s (advance s now)
unfolding advance count_tiles count_drawn
advance-Conserves s now e id = ground (arith, count-head-tail id s.deck)

conclude_empty-Conserves :
    (s : State) (reveal : Bool) (now : ℕ)
    → s.drawn ≡ none
    → Conserves s (conclude_empty s reveal now)
unfolding conclude_empty count_tiles
conclude_empty-Conserves s false now e id = unfold count_tiles in advance-Conserves s now e id
conclude_empty-Conserves s true now e id =
    grind (arith, advance-Conserves, count_hands-insert, count-reveal_tile)

-- A drawn tile that goes into the hand before the turn passes.
take_in-Conserves :
    (s : State) (hand : List Tile) (now : ℕ) (id : String)
    → count id hand ≡ count_drawn id s.drawn + count id (hand_of s s.turn_player_id)
    → count_tiles id
        (advance (record s { hands = insert s.turn_player_id hand s.hands; drawn = none }) now)
      ≡ count_tiles id s
unfolding count_tiles count_drawn
take_in-Conserves s hand now id h =
    let after : State = record s { hands = insert s.turn_player_id hand s.hands; drawn = none } in
    omega (
      arith,
      advance-Conserves after now refl id,
      count_hands-insert id s.turn_player_id hand s.hands,
      h,
    )

conclude_drawn-Conserves :
    (s : State) (t : Tile) (now : ℕ) (id : String)
    → count_drawn id (some t) ≡ count_drawn id s.drawn
    → count_tiles id (conclude_drawn s t now) ≡ count_tiles id s
conclude_drawn-Conserves s t now id same =
    let hand = hand_of s s.turn_player_id in
    unfold conclude_drawn in
    elim (Bool-cases (eqb_ℤ t.number joker)) [
      | inl e ↦ rw e (unfold count_tiles in omega arith)
      | inr e ↦ rw e (
          take_in-Conserves s _ now id
            (omega (arith, count-insert_at id hand t (insert_index_of hand t), same)))
    ]

conclude_turn-Conserves :
    (s : State) (reveal : Bool) (now : ℕ) → Conserves s (conclude_turn s reveal now)
unfolding conclude_turn count_drawn
conclude_turn-Conserves s reveal now id =
    grind (arith, conclude_empty-Conserves, conclude_drawn-Conserves)

place_drawn-Conserves : (s : State) (index : ℤ) (now : ℕ) → Conserves s (place_drawn s index now)
unfolding place_drawn count_tiles count_drawn
place_drawn-Conserves s index now id =
    grind (arith, advance-Conserves, count_hands-insert, count-insert_at)

advance-ne-placing : (s : State) (now : ℕ) → (advance s now).phase ≢ placing
unfolding advance
advance-ne-placing s now = ground arith

place_drawn-ne-placing :
    (s : State) (now : ℕ)
    → s.drawn ≢ none
    → (place_drawn s (pos (length (hand_of s s.turn_player_id))) now).phase ≢ placing
unfolding place_drawn
place_drawn-ne-placing s now h = grind (arith, advance-ne-placing)

timed_out-Conserves :
    (s : State) (now : ℕ) → (s.phase ≡ placing → s.drawn ≢ none) → Conserves s (timed_out s now)
unfolding timed_out
timed_out-Conserves s now h id =
    grind (arith, conclude_turn-Conserves, place_drawn-Conserves, place_drawn-ne-placing)

guess-Conserves : (s : State) (i : GuessInput) → Conserves s (guess s i)
unfolding guess guess_wrong guess_right count_tiles
guess-Conserves s i id =
    grind (arith, conclude_turn-Conserves, count_hands-insert, count-reveal_tile)

accept-Conserves : (s : State) (x : Input) → Conserves s (accept s x)
unfolding accept decide place count_tiles
accept-Conserves s (guesses i) id = unfold count_tiles in guess-Conserves s i id
accept-Conserves s (decides i) id = grind (arith, conclude_turn-Conserves)
accept-Conserves s (places i) id = grind (arith, place_drawn-Conserves)

expire-Conserves :
    (s : State) (now : ℕ) → (s.phase ≡ placing → s.drawn ≢ none) → Conserves s (expire s now)
unfolding expire count_tiles
expire-Conserves s now h id = grind (arith, timed_out-Conserves)

-- The leaver is in the game and has the turn, and at least two are left without him.
abbrev pub LosesDrawn : State → String → Type 0
LosesDrawn s p =
    (is_finished s.phase ≡ false)
    × (includes s.player_order p ≡ true)
    × (includes s.eliminated p ≡ false)
    × (1 < length (survivors s.player_order (s.eliminated ++ p ∷ [])))
    × (s.turn_player_id ≡ p)

abbrev is_out : State → String → Bool
is_out s p = is_finished s.phase || not (includes s.player_order p) || includes s.eliminated p

abbrev is_last : State → String → Bool
is_last s p = leb (length (survivors s.player_order (s.eliminated ++ p ∷ []))) 1

-- The tiles of a state without its drawn tile.
abbrev undrawn : State → State
undrawn s = record s { drawn = none }

base-Conserves : (s : State) (p : String) (now : ℕ) → Conserves s (forfeit_base s p now)
unfolding forfeit_base count_tiles
base-Conserves s p now id = grind (arith, count_hands-insert, count-reveal_all)

count-undrawn :
    (s : State) (id : String)
    → count_tiles id (undrawn s) + count_drawn id s.drawn ≡ count_tiles id s
unfolding count_tiles count_drawn
count-undrawn s id = omega arith

count-passed :
    (s : State) (now version : ℕ) (id : String)
    → count_tiles id (record (advance (undrawn s) now) { version = version })
        + count_drawn id s.drawn
      ≡ count_tiles id s
unfolding count_tiles
count-passed s now version id =
    let kept = advance-Conserves (undrawn s) now refl id in
    let less = count-undrawn s id in omega (arith, kept, less)

forfeit_last :
    (s : State) (p : String) (now : ℕ)
    → is_out s p ≡ false
    → is_last s p ≡ true
    → forfeit s p now ≡ record (forfeit_base s p now) {
      phase = finished;
      winner_id = head? (survivors s.player_order (s.eliminated ++ p ∷ []));
      next_action_at = 0;
    }
unfolding forfeit forfeit_base
forfeit_last s p now there last = ground arith

forfeit_other :
    (s : State) (p : String) (now : ℕ)
    → is_out s p ≡ false
    → is_last s p ≡ false
    → str_eq s.turn_player_id p ≡ false
    → forfeit s p now ≡ forfeit_base s p now
unfolding forfeit forfeit_base
forfeit_other s p now there more other = ground arith

forfeit_own :
    (s : State) (p : String) (now : ℕ)
    → is_out s p ≡ false
    → is_last s p ≡ false
    → str_eq s.turn_player_id p ≡ true
    → forfeit s p now
      ≡ record (advance (undrawn (forfeit_base s p now)) now) { version = s.version + 1 }
unfolding forfeit forfeit_base
forfeit_own s p now there more own = ground arith

count-over :
    (s : State) (winner : Option String) (id : String)
    → count_tiles id (record s { phase = finished; winner_id = winner; next_action_at = 0 })
      ≡ count_tiles id s
unfolding count_tiles
count-over s winner id = refl

-- If the leaver is in the game and has the turn, and at least two are left without him, exactly the
-- tile that he had drawn is gone; every other departure keeps every tile.
pub forfeit_tiles :
    (s : State) (p : String) (now : ℕ) (id : String)
    → (LosesDrawn s p
        × (count_tiles id (forfeit s p now) + count_drawn id s.drawn ≡ count_tiles id s))
      ⊎ ((¬ LosesDrawn s p) × (count_tiles id (forfeit s p now) ≡ count_tiles id s))
unfolding forfeit forfeit_base
forfeit_tiles s p now id =
    let base = forfeit_base s p now in
    let kept = base-Conserves s p now id in
    elim (Bool-cases (is_out s p)) [
      | inl out ↦
          let same : forfeit s p now ≡ s = ground arith in
          inr ((λ h. ground (arith, h)), ap (count_tiles id) same)
      | inr there ↦ elim (Bool-cases (is_last s p)) [
        | inl last ↦ inr (
          (λ h. ground (arith, h)),
          ap (count_tiles id) (forfeit_last s p now there last) ∙ count-over base _ id ∙ kept,
        )
        | inr more ↦ elim (Bool-cases (str_eq s.turn_player_id p)) [
          | inr other ↦ inr (
            (λ h. ground (arith, h, eq_iff s.turn_player_id p)),
            ap (count_tiles id) (forfeit_other s p now there more other) ∙ kept,
          )
          | inl own ↦ inl (
            (
              ground arith,
              ground arith,
              ground arith,
              ground arith,
              ground (arith, eq_iff s.turn_player_id p),
            ),
            ap (λ t. count_tiles id t + count_drawn id s.drawn) (forfeit_own s p now there more own)
                ∙ count-passed base now (s.version + 1) id
                ∙ kept,
          )
        ]
      ]
    ]

-- The history has no departure in it.
abbrev pub NobodyLeaves : List Action → Type 0
NobodyLeaves [] = Unit {0}
NobodyLeaves (inputs x ∷ rest) = NobodyLeaves rest
NobodyLeaves (expires now ∷ rest) = NobodyLeaves rest
NobodyLeaves (forfeits p now ∷ rest) = ⊥

-- From a state whose placing player holds a tile, any history of inputs and deadlines in which nobody
-- leaves keeps the tiles: each id stands in hands, deck and drawn tile together as often as before.
pub run-Conserves :
    (s : State) (history : List Action)
    → HoldsJoker s
    → NobodyLeaves history
    → Conserves s (run s history)
unfolding run
run-Conserves s [] h n id = refl
run-Conserves s (inputs x ∷ rest) h n id =
    run-Conserves (apply s (inputs x)) rest (apply-HoldsJoker s (inputs x) h) n id
    ∙ (unfold apply in accept-Conserves s x id)
run-Conserves s (expires now ∷ rest) h n id =
    run-Conserves (apply s (expires now)) rest (apply-HoldsJoker s (expires now) h) n id
    ∙ (unfold apply in expire-Conserves s now h id)
run-Conserves s (forfeits p now ∷ rest) h n id = absurd n
