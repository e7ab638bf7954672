-- ===== src/Davinci/Versions.antt =====
-- The version that every change of davinciRules.ts raises, and inputs that come twice.
use yorr.Prelude.{ℕ, ◌+◌, String, ◌≡◌, ◌⊎◌, arith}
use yorr.Davinci.Types.{State}
use yorr.Davinci.Rules.{
  GuessInput, DecideInput, PlaceInput, guess, guess_wrong, guess_right, decide, place, expire,
  forfeit, forfeit_base,
}
use yorr.Davinci.Play.{guesses, decides, places, accept, Action, inputs, expires, forfeits, apply}

abbrev pub Bumps : State → State → Type 0
Bumps s t = (t ≡ s) ⊎ (t.version ≡ s.version + 1)

guess-Bumps : (s : State) (i : GuessInput) → Bumps s (guess s i)
unfolding guess guess_wrong guess_right
guess-Bumps s i = ground arith

decide-Bumps : (s : State) (i : DecideInput) → Bumps s (decide s i)
unfolding decide
decide-Bumps s i = ground arith

place-Bumps : (s : State) (i : PlaceInput) → Bumps s (place s i)
unfolding place
place-Bumps s i = ground arith

expire-Bumps : (s : State) (now : ℕ) → Bumps s (expire s now)
unfolding expire
expire-Bumps s now = ground arith

forfeit-Bumps : (s : State) (p : String) (now : ℕ) → Bumps s (forfeit s p now)
unfolding forfeit forfeit_base
forfeit-Bumps s p now = ground arith

-- Every input, deadline and departure either leaves the state exactly as it was or raises its version by
-- one.
pub apply-Bumps : (s : State) (a : Action) → Bumps s (apply s a)
unfolding apply accept
apply-Bumps s (inputs (guesses i)) = guess-Bumps s i
apply-Bumps s (inputs (decides i)) = decide-Bumps s i
apply-Bumps s (inputs (places i)) = place-Bumps s i
apply-Bumps s (expires now) = expire-Bumps s now
apply-Bumps s (forfeits p now) = forfeit-Bumps s p now
