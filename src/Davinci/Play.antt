-- ===== src/Davinci/Play.antt =====
-- What the game service (davinciGameService.ts) may do to a state: one of three inputs, a deadline or
-- a departure, in any order.
use yorr.Prelude.{ℕ, String, ℤ, List, [], ◌∷◌}
use yorr.Davinci.Types.{State}
use yorr.Davinci.Rules.{GuessInput, DecideInput, PlaceInput, guess, decide, place, expire, forfeit}

pub data Input : Type 0 where
  guesses : GuessInput → Input
  decides : DecideInput → Input
  places : PlaceInput → Input

abbrev pub player_of : Input → String
player_of (guesses i) = i.player_id
player_of (decides i) = i.player_id
player_of (places i) = i.player_id

abbrev pub seq_of : Input → ℤ
seq_of (guesses i) = i.input_seq
seq_of (decides i) = i.input_seq
seq_of (places i) = i.input_seq

unfoldable pub accept : State → Input → State
accept s (guesses i) = guess s i
accept s (decides i) = decide s i
accept s (places i) = place s i

pub data Action : Type 0 where
  inputs : Input → Action
  expires : ℕ → Action
  forfeits : String → ℕ → Action

unfoldable pub apply : State → Action → State
apply s (inputs i) = accept s i
apply s (expires now) = expire s now
apply s (forfeits p now) = forfeit s p now

unfoldable pub run : State → List Action → State
run s [] = s
run s (a ∷ rest) = run (apply s a) rest
