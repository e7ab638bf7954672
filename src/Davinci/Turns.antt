-- ===== src/Davinci/Turns.antt =====
-- Whose turn it is: while a game goes on, it is the turn of a player who is still in it.
mod Seats
use yorr.Prelude.{
  ℕ, suc, ◌≤◌, String, ℤ, ◌≡◌, refl, ◌≢◌, Bool, true, false, not, ◌&&◌, ◌||◌, Option, none, some,
  List, [], ◌∷◌, ◌++◌, arith, length, includes, str_eq, eq_iff, eq_refl, inl, inr, Bool-cases, leb,
  insert,
}
use yorr.Davinci.Types.{State, Phase, is_finished, survivors, finished, deciding, guessing, placing}
use yorr.Davinci.TurnFlow.{
  eliminate_wiped, next_player, advance, conclude_empty, conclude_drawn, conclude_turn, place_drawn,
  timed_out,
}
use yorr.Davinci.Rules.{
  GuessInput, DecideInput, PlaceInput, with_seq, guess, guess_wrong, guess_right, eliminate_target,
  decide, place, expire, forfeit, forfeit_base,
}
use yorr.Davinci.Play.{
  Input, guesses, decides, places, accept, Action, inputs, expires, forfeits, apply, run,
}
use Seats.{includes-survivors, next_player_alive}

abbrev pub alive : State → List String
alive s = survivors s.player_order s.eliminated

-- At least two players are left, and the one whose turn it is is one of them.
pub record InPlay (s : State) : Type 0 where
  pub two : 2 ≤ length (alive s)
  pub turn : includes (alive s) s.turn_player_id ≡ true

abbrev pub IsValid : State → Type 0
IsValid s = s.phase ≢ finished → InPlay s

someone : (xs : List String) → 2 ≤ length xs → (c : String) × (includes xs c ≡ true)
someone [] h = absurd (omega arith)
someone (x ∷ xs) h = (x, rw eq_refl refl)

advance-IsValid : (s : State) (now : ℕ) → IsValid (advance s now)
unfolding advance
advance-IsValid s now =
    let out = eliminate_wiped s in
    let left = survivors s.player_order out in
    elim (Bool-cases (leb (length left) 1)) [
      | inl e ↦ rw e (λ p. absurd (p refl))
      | inr e ↦
          let (c, member) = someone left (ground arith) in
          let sits : includes s.player_order c ≡ true =
            ground (arith, includes-survivors s.player_order out c) in
          rw e (λ p. record { two = ground arith; turn = next_player_alive s left c sits member })
    ]

conclude_turn-IsValid :
    (s : State) (reveal : Bool) (now : ℕ) → InPlay s → IsValid (conclude_turn s reveal now)
unfolding conclude_turn conclude_empty conclude_drawn
conclude_turn-IsValid s reveal now h = grind (arith, advance-IsValid)

place_drawn-IsValid :
    (s : State) (index : ℤ) (now : ℕ) → InPlay s → IsValid (place_drawn s index now)
unfolding place_drawn
place_drawn-IsValid s index now h = grind (arith, advance-IsValid)

timed_out-IsValid : (s : State) (now : ℕ) → InPlay s → IsValid (timed_out s now)
unfolding timed_out
timed_out-IsValid s now h =
    grind (arith, advance-IsValid, conclude_turn-IsValid, place_drawn-IsValid)

includes-append :
    (xs : List String) (q p : String) → includes (xs ++ q ∷ []) p ≡ (includes xs p || str_eq q p)
includes-append [] q p = ground (arith, eq_iff q p)
includes-append (x ∷ xs) q p = ground (arith, eq_iff x p, eq_iff q p, includes-append xs q p)

still_in :
    (order out : List String) (q p : String)
    → includes (survivors order out) p ≡ true
    → str_eq q p ≡ false
    → includes (survivors order (out ++ q ∷ [])) p ≡ true
still_in order out q p h other = ground (
  arith,
  includes-survivors order out p,
  includes-survivors order (out ++ q ∷ []) p,
  includes-append out q p,
  eq_iff q p,
)

-- The target of a right guess is another player, so the guesser stays in.
guess_right-IsValid :
    (s : State) (i : GuessInput)
    → InPlay s
    → str_eq i.target_id s.turn_player_id ≡ false
    → IsValid (guess_right s i)
unfolding guess_right eliminate_target
guess_right-IsValid s i h other p = record {
  two = ground arith;
  turn = ground (
    arith,
    still_in s.player_order s.eliminated i.target_id s.turn_player_id h.turn other,
    h.turn,
  );
}

guess_wrong-IsValid : (s : State) (i : GuessInput) → InPlay s → IsValid (guess_wrong s i)
unfolding guess_wrong
guess_wrong-IsValid s i h p =
    let start : InPlay (with_seq s i.player_id i.input_seq) = record {
      two = h.two;
      turn = h.turn;
    } in
    let done = conclude_turn-IsValid (with_seq s i.player_id i.input_seq) true i.now start p in
    record { two = done.two; turn = done.turn }

guess-IsValid : (s : State) (i : GuessInput) → InPlay s → IsValid (guess s i)
unfolding guess
guess-IsValid s i h p = grind (arith, guess_right-IsValid, guess_wrong-IsValid, eq_iff)

decide-IsValid : (s : State) (i : DecideInput) → InPlay s → IsValid (decide s i)
unfolding decide
decide-IsValid s i h p =
    let start : InPlay (with_seq s i.player_id i.input_seq) = record {
      two = h.two;
      turn = h.turn;
    } in
    let done = conclude_turn-IsValid (with_seq s i.player_id i.input_seq) false i.now start in
    grind (arith, done)

place-IsValid : (s : State) (i : PlaceInput) → InPlay s → IsValid (place s i)
unfolding place
place-IsValid s i h p =
    let start : InPlay (with_seq s i.player_id i.input_seq) = record {
      two = h.two;
      turn = h.turn;
    } in
    let done = place_drawn-IsValid (with_seq s i.player_id i.input_seq) i.index i.now start in
    grind (arith, done)

expire-IsValid : (s : State) (now : ℕ) → InPlay s → IsValid (expire s now)
unfolding expire
expire-IsValid s now h p = grind (arith, timed_out-IsValid)

forfeit-IsValid : (s : State) (q : String) (now : ℕ) → InPlay s → IsValid (forfeit s q now)
unfolding forfeit forfeit_base
forfeit-IsValid s q now h p = grind (
  arith,
  advance-IsValid,
  still_in s.player_order s.eliminated q s.turn_player_id h.turn,
  eq_iff q s.turn_player_id,
  eq_iff s.turn_player_id q,
)

-- A finished game is never changed again.
pub apply_finished : (s : State) (a : Action) → s.phase ≡ finished → apply s a ≡ s
unfolding apply accept guess decide place expire forfeit
apply_finished s (inputs (guesses i)) h = ground arith
apply_finished s (inputs (decides i)) h = ground arith
apply_finished s (inputs (places i)) h = ground arith
apply_finished s (expires now) h = ground arith
apply_finished s (forfeits q now) h = ground arith

apply-InPlay : (s : State) (a : Action) → InPlay s → IsValid (apply s a)
unfolding apply accept
apply-InPlay s (inputs (guesses i)) h = guess-IsValid s i h
apply-InPlay s (inputs (decides i)) h = decide-IsValid s i h
apply-InPlay s (inputs (places i)) h = place-IsValid s i h
apply-InPlay s (expires now) h = expire-IsValid s now h
apply-InPlay s (forfeits q now) h = forfeit-IsValid s q now h

is_finished-eq : (p : Phase) → is_finished p ≡ true → p ≡ finished
is_finished-eq p h = ground arith

apply-IsValid : (s : State) (a : Action) → IsValid s → IsValid (apply s a)
apply-IsValid s a h = elim (Bool-cases (is_finished s.phase)) [
  | inl e ↦ rw (apply_finished s a (is_finished-eq s.phase e)) h
  | inr e ↦ apply-InPlay s a (h (λ q. ground arith))
]

-- From a valid state every history leads to a state that is over, or in which at least two players are
-- left and the player whose turn it is is one of them.
pub run-IsValid : (s : State) (history : List Action) → IsValid s → IsValid (run s history)
unfolding run
run-IsValid s [] h = h
run-IsValid s (a ∷ rest) h = run-IsValid (apply s a) rest (apply-IsValid s a h)
