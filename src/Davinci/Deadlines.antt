-- ===== src/Davinci/Deadlines.antt =====
-- A deadline that has passed always moves the game.
use yorr.Prelude.{ℕ, ◌+◌, ◌<◌, ℤ, ◌≡◌, ◌≢◌, ◌⊎◌, Bool, arith}
use yorr.Davinci.Types.{State, finished, placing}
use yorr.Davinci.TurnFlow.{
  advance, conclude_empty, conclude_drawn, conclude_turn, place_drawn, timed_out,
}
use yorr.Davinci.Rules.{expire}

-- The game is over with no deadline left, or the next deadline lies ahead.
abbrev pub HasMoved : ℕ → State → Type 0
HasMoved now t = ((t.phase ≡ finished) × (t.next_action_at ≡ 0)) ⊎ (now < t.next_action_at)

pub advance-HasMoved : (s : State) (now : ℕ) → HasMoved now (advance s now)
unfolding advance
advance-HasMoved s now = ground arith

pub conclude_turn-HasMoved :
    (s : State) (reveal : Bool) (now : ℕ) → HasMoved now (conclude_turn s reveal now)
unfolding conclude_turn conclude_empty conclude_drawn
conclude_turn-HasMoved s reveal now = grind (arith, advance-HasMoved)

place_drawn-HasMoved :
    (s : State) (index : ℤ) (now : ℕ)
    → ((place_drawn s index now).phase ≢ placing)
    → s.phase ≡ placing
    → HasMoved now (place_drawn s index now)
unfolding place_drawn
place_drawn-HasMoved s index now = grind (arith, advance-HasMoved)

-- Unless the game was over before, after a deadline it is over with no deadline set, or its next
-- deadline lies after the time of this one.
pub expire-HasMoved : (s : State) (now : ℕ) → s.phase ≢ finished → HasMoved now (expire s now)
unfolding expire timed_out
expire-HasMoved s now h =
    grind (arith, advance-HasMoved, conclude_turn-HasMoved, place_drawn-HasMoved)

pub expire_finished : (s : State) (now : ℕ) → s.phase ≡ finished → expire s now ≡ s
unfolding expire
expire_finished s now h = ground arith

pub version-expire :
    (s : State) (now : ℕ) → s.phase ≢ finished → (expire s now).version ≡ s.version + 1
unfolding expire
version-expire s now h = ground arith
