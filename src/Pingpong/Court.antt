-- ===== src/Pingpong/Court.antt =====
-- pingPongCourtMath.ts: the flight of the ball and the windows of a swing, over any arithmetic.
use yorr.Prelude.{ℕ, ◌+◌, ◌-◌, Bool, true, false, Option, none, some, if◌then◌else◌, leb}
use yorr.Pingpong.Types.{Floats, Fault, EventType, Direction, to_first, to_second, Ball}

abbrev pub win_score : ℕ
win_score = 11

abbrev pub point_countdown_millis : ℕ
point_countdown_millis = 2600

abbrev pub max_rollback_millis : ℕ
max_rollback_millis = 120

-- What `returnKind` gives.
pub record Return (Float : Type 0) : Type 0 where
  pub speed : Float
  pub smash : Bool
  pub type : EventType

module _ (F : Floats) where
  open F use {Float, of_nat, literal, add, sub, mul, div, lt, le, abs, round}

  abbrev pub normal_speed : Float
  normal_speed = of_nat 1

  abbrev pub smash_speed : Float
  smash_speed = literal 195 2

  abbrev pub weak_speed : Float
  weak_speed = literal 82 2

  abbrev pub ideal_1 : Float
  ideal_1 = literal 9 1

  abbrev pub window_1_low : Float
  window_1_low = literal 72 2

  abbrev pub window_1_high : Float
  window_1_high = literal 106 2

  abbrev pub miss_1 : Float
  miss_1 = literal 11 1

  abbrev pub ideal_2 : Float
  ideal_2 = sub (of_nat 1) ideal_1

  abbrev pub window_2_low : Float
  window_2_low = sub (of_nat 1) window_1_high

  abbrev pub window_2_high : Float
  window_2_high = sub (of_nat 1) window_1_low

  abbrev pub miss_2 : Float
  miss_2 = sub (of_nat 1) miss_1

  abbrev pub early_margin : Float
  early_margin = sub ideal_1 window_1_low

  abbrev pub late_margin : Float
  late_margin = sub window_1_high ideal_1

  unfoldable pub progress : Float → Direction → Float
  progress pos to_first = pos
  progress pos to_second = sub (of_nat 1) pos

  -- At least one millisecond.
  unfoldable pub duration : Float → Float → Float → ℕ
  duration from to speed =
      let millis = round (mul (div (abs (sub to from)) speed) (of_nat 1000)) in
      if leb millis 1 then 1 else millis

  unfoldable pub miss_line : Direction → Float
  miss_line to_first = miss_1
  miss_line to_second = miss_2

  unfoldable pub miss_deadline : Ball Float → ℕ → ℕ
  unfolding duration miss_line
  miss_deadline ball now = now + duration ball.pos (miss_line ball.direction) ball.speed

  unfoldable pub out_line : Direction → Float
  out_line to_first = literal 15 1
  out_line to_second = sub (of_nat 0) (literal 5 1)

  unfoldable pub flight_target : Option Fault → Direction → Float
  unfolding miss_line out_line
  flight_target (some Fault.net) direction = literal 5 1
  flight_target (some Fault.out) direction = out_line direction
  flight_target none direction = miss_line direction

  unfoldable pub flight_deadline : Ball Float → ℕ → ℕ
  unfolding duration flight_target
  flight_deadline ball now =
      now + duration ball.pos (flight_target ball.fault ball.direction) ball.speed

  unfoldable pub moved : Float → Direction → Float → Float
  moved pos to_first way = add pos way
  moved pos to_second way = sub pos way

  -- The subtraction of natural numbers stops at 0, as `Math.max(0, …)` does.
  unfoldable pub ball_at : Ball Float → ℕ → Ball Float
  unfolding moved
  ball_at ball now =
      let elapsed = div (of_nat (now - ball.launched_at)) (of_nat 1000) in
      record ball {
        pos = moved ball.pos ball.direction (mul ball.speed elapsed);
        launched_at = now;
      }

  -- `Math.max(0, Math.min(1, p))`
  unfoldable pub clamped : Float → Float
  clamped p = if lt (of_nat 1) p then of_nat 1 else if lt p (of_nat 0) then of_nat 0 else p

  unfoldable pub ball_x : Ball Float → Float
  unfolding progress clamped
  ball_x ball = add ball.x0 (mul (sub ball.x1 ball.x0) (clamped (progress ball.pos ball.direction)))

  unfoldable pub fault_of : Float → Bool → Option Fault
  fault_of distance early =
      let limit = sub (if early then early_margin else late_margin) (literal 4 2) in
      if le distance limit then none else if early then some Fault.out else some Fault.net

  unfoldable pub return_kind : Float → Option Fault → Return Float
  return_kind distance (some Fault.out) = record {
    speed = normal_speed;
    smash = false;
    type = EventType.out;
  }
  return_kind distance (some Fault.net) = record {
    speed = weak_speed;
    smash = false;
    type = EventType.net;
  }
  return_kind distance none =
      if le distance (literal 6 2)
      then record { speed = smash_speed; smash = true; type = EventType.smash }
      else if le distance (literal 1 1)
      then record { speed = normal_speed; smash = false; type = EventType.nice }
      else record { speed = weak_speed; smash = false; type = EventType.fine }
