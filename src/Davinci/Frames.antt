-- ===== src/Davinci/Frames.antt =====
-- What the end of a turn leaves alone.
use yorr.Prelude.{ℕ, ℤ, ◌≡◌, Bool, arith}
use yorr.Davinci.Types.{State, Tile}
use yorr.Davinci.TurnFlow.{
  advance, conclude_empty, conclude_drawn, conclude_turn, place_drawn, timed_out,
}

pub record SameSeats (s t : State) : Type 0 where
  pub player_order : t.player_order ≡ s.player_order
  pub hits : t.hits ≡ s.hits
  pub last_input_seq : t.last_input_seq ≡ s.last_input_seq

pub advance-SameSeats : (s : State) (now : ℕ) → SameSeats s (advance s now)
unfolding advance
advance-SameSeats s now = ground arith

pub conclude_empty-SameSeats :
    (s : State) (reveal : Bool) (now : ℕ) → SameSeats s (conclude_empty s reveal now)
unfolding conclude_empty
conclude_empty-SameSeats s reveal now = grind (arith, advance-SameSeats)

pub conclude_drawn-SameSeats :
    (s : State) (t : Tile) (now : ℕ) → SameSeats s (conclude_drawn s t now)
unfolding conclude_drawn
conclude_drawn-SameSeats s t now = grind (arith, advance-SameSeats)

pub conclude_turn-SameSeats :
    (s : State) (reveal : Bool) (now : ℕ) → SameSeats s (conclude_turn s reveal now)
unfolding conclude_turn
conclude_turn-SameSeats s reveal now =
    grind (arith, conclude_empty-SameSeats, conclude_drawn-SameSeats)

pub place_drawn-SameSeats :
    (s : State) (index : ℤ) (now : ℕ) → SameSeats s (place_drawn s index now)
unfolding place_drawn
place_drawn-SameSeats s index now = grind (arith, advance-SameSeats)

pub timed_out-SameSeats : (s : State) (now : ℕ) → SameSeats s (timed_out s now)
unfolding timed_out
timed_out-SameSeats s now =
    grind (arith, advance-SameSeats, conclude_turn-SameSeats, place_drawn-SameSeats)
