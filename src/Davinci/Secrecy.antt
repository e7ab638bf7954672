-- ===== src/Davinci/Secrecy.antt =====
-- What `toView` of davinciState.ts lets a viewer learn.
use yorr.Prelude.{
  String, ◌≡◌, refl, ap, ◌≢◌, Bool, true, false, Option, none, some, List, [], ◌∷◌, arith, Dict,
  length, map,
}
use yorr.Davinci.Types.{Tile, State, finished}
use yorr.Davinci.View.{tile_view, is_viewer, hands_view, drawn_view, to_view}

-- Two tiles that differ at most in a number that is hidden from one who does not own them.
pub record SameFace (mine : Bool) (a b : Tile) : Type 0 where
  pub id : a.id ≡ b.id
  pub color : a.color ≡ b.color
  pub revealed : a.revealed ≡ b.revealed
  pub number : ((a.revealed ≡ true) → a.number ≡ b.number) × ((mine ≡ true) → a.number ≡ b.number)

abbrev pub SameHand : Bool → List Tile → List Tile → Type 0
SameHand mine [] [] = Unit {0}
SameHand mine (a ∷ as') (b ∷ bs) = SameFace mine a b × SameHand mine as' bs
SameHand mine _ _ = ⊥

abbrev pub SameHands : Option String → Dict (List Tile) → Dict (List Tile) → Type 0
SameHands viewer [] [] = Unit {0}
SameHands viewer ((p, hand) ∷ rest) ((q, hand') ∷ rest') =
    (p ≡ q) × SameHand (is_viewer viewer p) hand hand' × SameHands viewer rest rest'
SameHands viewer _ _ = ⊥

abbrev pub SameDrawn : Bool → Option Tile → Option Tile → Type 0
SameDrawn mine none none = Unit {0}
SameDrawn mine (some a) (some b) = SameFace mine a b
SameDrawn mine _ _ = ⊥

-- Two states with the same public part, whose tiles have the same faces for the viewer. What lies in
-- the deck may differ, but for the number of tiles.
pub record SameTable (viewer : Option String) (s t : State) : Type 0 where
  pub version : s.version ≡ t.version
  pub phase : s.phase ≡ t.phase
  pub player_order : s.player_order ≡ t.player_order
  pub turn_player_id : s.turn_player_id ≡ t.turn_player_id
  pub hands : SameHands viewer s.hands t.hands
  pub deck : length s.deck ≡ length t.deck
  pub drawn : SameDrawn (is_viewer viewer s.turn_player_id) s.drawn t.drawn
  pub turn : s.turn ≡ t.turn
  pub eliminated : s.eliminated ≡ t.eliminated
  pub winner_id : s.winner_id ≡ t.winner_id
  pub hits : s.hits ≡ t.hits
  pub last_input_seq : s.last_input_seq ≡ t.last_input_seq
  pub next_action_at : s.next_action_at ≡ t.next_action_at
  pub last_event : s.last_event ≡ t.last_event

tile_view_same :
    (mine : Bool) (a b : Tile) → SameFace mine a b → tile_view a mine false ≡ tile_view b mine false
unfolding tile_view
tile_view_same mine a b h = ground (arith, h.number.0, h.number.1)

map-tile_view_same :
    (mine : Bool) (xs ys : List Tile)
    → SameHand mine xs ys
    → map (λ t. tile_view t mine false) xs ≡ map (λ t. tile_view t mine false) ys
map-tile_view_same mine [] [] h = refl
map-tile_view_same mine [] (b ∷ bs) h = absurd h
map-tile_view_same mine (a ∷ as') [] h = absurd h
map-tile_view_same mine (a ∷ as') (b ∷ bs) h =
    cc (tile_view_same mine a b h.0, map-tile_view_same mine as' bs h.1)

hands_view_same :
    (viewer : Option String) (xs ys : Dict (List Tile))
    → SameHands viewer xs ys
    → hands_view viewer false xs ≡ hands_view viewer false ys
unfolding hands_view
hands_view_same viewer [] [] h = refl
hands_view_same viewer [] (b ∷ bs) h = absurd h
hands_view_same viewer (a ∷ as') [] h = absurd h
hands_view_same viewer ((p, hand) ∷ rest) ((q, hand') ∷ rest') h = ground (
  arith,
  h.0,
  map-tile_view_same (is_viewer viewer p) hand hand' h.1,
  hands_view_same viewer rest rest' h.2,
)

drawn_view_same :
    (mine : Bool) (x y : Option Tile)
    → SameDrawn mine x y
    → drawn_view x mine false ≡ drawn_view y mine false
unfolding drawn_view
drawn_view_same mine none none h = refl
drawn_view_same mine none (some b) h = absurd h
drawn_view_same mine (some a) none h = absurd h
drawn_view_same mine (some a) (some b) h = ap some (tile_view_same mine a b h)

-- While the game goes on, two states that differ only in numbers hidden from the viewer and in what
-- lies in the deck are sent to him as the same view.
pub to_view_same :
    (viewer : Option String) (s t : State)
    → s.phase ≢ finished
    → SameTable viewer s t
    → to_view s viewer ≡ to_view t viewer
unfolding to_view
to_view_same viewer s t running h = ground (
  arith,
  hands_view_same viewer s.hands t.hands h.hands,
  drawn_view_same (is_viewer viewer s.turn_player_id) s.drawn t.drawn h.drawn,
)
