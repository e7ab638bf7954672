-- ===== src/Davinci/View.antt =====
-- `toView` of davinciState.ts: what one viewer is sent of a state.
use yorr.Prelude.{
  ℕ, String, ℤ, Bool, false, ◌||◌, Option, none, some, List, [], ◌∷◌, Dict, map, length,
  if◌then◌else◌, str_eq,
}
use yorr.Davinci.Types.{Color, Phase, is_finished, Tile, Event, State}

pub record TileView : Type 0 where
  pub id : String
  pub color : Color
  pub number : Option ℤ
  pub revealed : Bool

pub record View : Type 0 where
  pub version : ℕ
  pub phase : Phase
  pub player_order : List String
  pub turn_player_id : String
  pub hands : Dict (List TileView)
  pub deck_count : ℕ
  pub drawn : Option TileView
  pub turn : ℕ
  pub eliminated : List String
  pub winner_id : Option String
  pub hits : Dict ℕ
  pub last_input_seq : Dict ℤ
  pub next_action_at : ℕ
  pub last_event : Option Event

unfoldable pub visible : Tile → Bool → Bool → Bool
visible tile mine over = tile.revealed || mine || over

unfoldable pub tile_view : Tile → Bool → Bool → TileView
unfolding visible
tile_view tile mine over = record {
  id = tile.id;
  color = tile.color;
  number = if visible tile mine over then some tile.number else none;
  revealed = tile.revealed;
}

-- `playerId === viewerId`, where a viewer who is no player is `null`.
unfoldable pub is_viewer : Option String → String → Bool
is_viewer none player_id = false
is_viewer (some v) player_id = str_eq player_id v

unfoldable pub hands_view : Option String → Bool → Dict (List Tile) → Dict (List TileView)
unfolding tile_view is_viewer
hands_view viewer over [] = []
hands_view viewer over ((player_id, tiles) ∷ rest) =
    (player_id, map (λ t. tile_view t (is_viewer viewer player_id) over) tiles)
    ∷ hands_view viewer over rest

unfoldable pub drawn_view : Option Tile → Bool → Bool → Option TileView
unfolding tile_view
drawn_view none mine over = none
drawn_view (some t) mine over = some (tile_view t mine over)

unfoldable pub to_view : State → Option String → View
unfolding hands_view drawn_view is_viewer
to_view s viewer = record {
  version = s.version;
  phase = s.phase;
  player_order = s.player_order;
  turn_player_id = s.turn_player_id;
  hands = hands_view viewer (is_finished s.phase) s.hands;
  deck_count = length s.deck;
  drawn = drawn_view s.drawn (is_viewer viewer s.turn_player_id) (is_finished s.phase);
  turn = s.turn;
  eliminated = s.eliminated;
  winner_id = s.winner_id;
  hits = s.hits;
  last_input_seq = s.last_input_seq;
  next_action_at = s.next_action_at;
  last_event = s.last_event;
}
