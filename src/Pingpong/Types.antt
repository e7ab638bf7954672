-- ===== src/Pingpong/Types.antt =====
-- pingPongState.ts: the state of a match. The numbers of the court are floating point, which is not
-- code of the repository: `Floats` is the arithmetic that it uses, and every definition takes it.
use yorr.Prelude.{
  ℕ, ◌+◌, String, ℤ, Bool, true, false, Option, none, some, List, Dict, lookup_or, get_elem?,
  str_eq, [], ◌∷◌, if◌then◌else◌,
}

-- The operations on a `number` of the court: the number of an integer, the decimal literals
-- (`literal 195 2` is 1.95), the four operations, the tests, `Math.abs`, and `Math.round` of a number
-- that is not negative.
pub record Floats : Type 1 where
  pub Float : Type 0
  pub of_nat : ℕ → Float
  pub literal : ℕ → ℕ → Float
  pub add : Float → Float → Float
  pub sub : Float → Float → Float
  pub mul : Float → Float → Float
  pub div : Float → Float → Float
  pub lt : Float → Float → Bool
  pub le : Float → Float → Bool
  pub abs : Float → Float
  pub round : Float → ℕ

pub data Phase : Type 0 where
  preparing countdown playing finished : Phase

pub data Fault : Type 0 where
  out net : Fault

pub data EventType : Type 0 where
  ready practice player_ready serve too_early too_late fine nice smash out net point game_over
        opponent_left :
      EventType

-- `+1`, towards the first player, and `-1`
pub data Direction : Type 0 where
  to_first to_second : Direction

pub record Ball (Float : Type 0) : Type 0 where
  pub pos : Float
  pub direction : Direction
  pub speed : Float
  pub smash : Bool
  pub fault : Option Fault
  pub fault_from : Float
  pub x0 : Float
  pub x1 : Float
  pub launched_at : ℕ

pub record Event : Type 0 where
  pub id : ℕ
  pub type : EventType
  pub player_id : String
  pub at : ℕ

pub record State (Float : Type 0) : Type 0 where
  pub version : ℕ
  pub phase : Phase
  pub player_order : List String
  pub scores : Dict ℕ
  pub last_input_seq : Dict ℤ
  pub ready_player_ids : List String
  pub ball : Ball Float
  pub rally : ℕ
  pub serve_receiver_id : Option String
  pub next_action_at : ℕ
  pub last_event : Option Event

-- `isPingPongFinished`
unfoldable pub is_finished : Phase → Bool
is_finished finished = true
is_finished _ = false

unfoldable pub is_preparing : Phase → Bool
is_preparing preparing = true
is_preparing _ = false

unfoldable pub is_playing : Phase → Bool
is_playing playing = true
is_playing _ = false

unfoldable pub is_countdown : Phase → Bool
is_countdown countdown = true
is_countdown _ = false

unfoldable pub make_event : ℕ → EventType → String → ℕ → Event
make_event version type player_id now = record {
  id = version;
  type = type;
  player_id = player_id;
  at = now;
}

-- A missing name as a key of an object.
unfoldable pub name_of : Option String → String
name_of none = "undefined"
name_of (some p) = p

-- `playerOrder[i] as string`
unfoldable pub player_at : List String → ℕ → String
unfolding name_of
player_at order i = name_of (get_elem? order i)

-- `scores[p] ?? 0`
unfoldable pub points : Dict ℕ → String → ℕ
unfolding lookup_or
points scores p = lookup_or scores p 0

-- `playerOrder.indexOf(p)`, where `none` is -1
unfoldable pub seat_of : List String → String → Option ℕ
seat_of [] p = none
seat_of (q ∷ rest) p =
    if str_eq q p then some 0 else elim (seat_of rest p) [ none ↦ none | some i ↦ some (i + 1) ]
