-- ===== src/Davinci/Jokers.antt =====
-- The phase in which a joker is placed always has a tile to place.
use yorr.Prelude.{ℕ, ℤ, ◌≡◌, ◌≢◌, Bool, none, arith}
use yorr.Davinci.Types.{State, placing}
use yorr.Davinci.TurnFlow.{
  advance, conclude_empty, conclude_drawn, conclude_turn, place_drawn, timed_out,
}
use yorr.Davinci.Rules.{
  guess, guess_wrong, guess_right, decide, place, expire, forfeit, forfeit_base,
}
use yorr.Davinci.Play.{guesses, decides, places, accept, Action, inputs, expires, forfeits, apply}

-- Who has to place a tile holds one.
abbrev pub HoldsJoker : State → Type 0
HoldsJoker s = s.phase ≡ placing → s.drawn ≢ none

advance-HoldsJoker : (s : State) (now : ℕ) → HoldsJoker (advance s now)
unfolding advance
advance-HoldsJoker s now = ground arith

conclude_turn-HoldsJoker :
    (s : State) (reveal : Bool) (now : ℕ) → HoldsJoker (conclude_turn s reveal now)
unfolding conclude_turn conclude_empty conclude_drawn
conclude_turn-HoldsJoker s reveal now = grind (arith, advance-HoldsJoker)

place_drawn-HoldsJoker :
    (s : State) (index : ℤ) (now : ℕ) → HoldsJoker s → HoldsJoker (place_drawn s index now)
unfolding place_drawn
place_drawn-HoldsJoker s index now h = grind (arith, advance-HoldsJoker)

timed_out-HoldsJoker : (s : State) (now : ℕ) → HoldsJoker s → HoldsJoker (timed_out s now)
unfolding timed_out
timed_out-HoldsJoker s now h =
    grind (arith, advance-HoldsJoker, conclude_turn-HoldsJoker, place_drawn-HoldsJoker)

-- Every action keeps it so.
pub apply-HoldsJoker : (s : State) (a : Action) → HoldsJoker s → HoldsJoker (apply s a)
unfolding apply accept
apply-HoldsJoker s (inputs (guesses i)) h =
    unfold guess guess_wrong guess_right in grind (arith, conclude_turn-HoldsJoker)
apply-HoldsJoker s (inputs (decides i)) h = unfold decide in grind (arith, conclude_turn-HoldsJoker)
apply-HoldsJoker s (inputs (places i)) h = unfold place in grind (arith, place_drawn-HoldsJoker)
apply-HoldsJoker s (expires now) h = unfold expire in grind (arith, timed_out-HoldsJoker)
apply-HoldsJoker s (forfeits p now) h =
    unfold forfeit forfeit_base in grind (arith, advance-HoldsJoker)
