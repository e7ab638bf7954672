-- ===== src/Davinci/Types.antt =====
-- davinciState.ts, davinciConstants.ts and davinciHelpers.ts: the state of one game, its constants
-- and the look-ups that the rules share.
use yorr.Prelude.{
  ℕ, String, ℤ, true, false, negsuc, Bool, not, Option, List, [], Dict, lookup_or, keep, includes,
}

pub data Color : Type 0 where
  black white : Color

pub data Phase : Type 0 where
  guessing deciding placing finished : Phase

abbrev pub is_placing : Phase → Bool
is_placing placing = true
is_placing _ = false

abbrev pub is_guessing : Phase → Bool
is_guessing guessing = true
is_guessing _ = false

abbrev pub is_deciding : Phase → Bool
is_deciding deciding = true
is_deciding _ = false

abbrev pub is_finished : Phase → Bool
is_finished finished = true
is_finished _ = false

-- The number of a joker.
abbrev pub joker : ℤ
joker = negsuc 0

pub record Tile : Type 0 where
  pub id : String
  pub color : Color
  pub number : ℤ
  pub revealed : Bool

pub data EventKind : Type 0 where
  guess timeout forfeit : EventKind

pub record Event : Type 0 where
  pub kind : EventKind
  pub actor_id : String
  pub target_id : Option String
  pub tile_id : Option String
  pub number : Option ℤ
  pub correct : Bool
  pub at : ℕ

pub record State : Type 0 where
  pub version : ℕ
  pub phase : Phase
  pub player_order : List String
  pub turn_player_id : String
  pub hands : Dict (List Tile)
  pub deck : List Tile
  pub drawn : Option Tile
  pub turn : ℕ
  pub eliminated : List String
  pub winner_id : Option String
  pub hits : Dict ℕ
  pub last_input_seq : Dict ℤ
  pub next_action_at : ℕ
  pub last_event : Option Event

abbrev pub max_number : ℕ
max_number = 11

abbrev pub deck_size : ℕ
deck_size = 26

abbrev pub min_players : ℕ
min_players = 2

abbrev pub max_players : ℕ
max_players = 4

abbrev pub hand_size_few : ℕ
hand_size_few = 4

abbrev pub hand_size_many : ℕ
hand_size_many = 3

abbrev pub many_players : ℕ
many_players = 4

abbrev pub guess_millis : ℕ
guess_millis = 30000

abbrev pub decide_millis : ℕ
decide_millis = 15000

abbrev pub place_millis : ℕ
place_millis = 15000

-- `values[playerId] ?? fallback`
abbrev pub at {ℓ} : {V : Type ℓ} → Dict V → String → V → V
at values player_id fallback = lookup_or values player_id fallback

abbrev pub hand_of : State → String → List Tile
hand_of s player_id = lookup_or s.hands player_id []

abbrev pub survivors : List String → List String → List String
survivors player_order eliminated = keep (λ p. not (includes eliminated p)) player_order
