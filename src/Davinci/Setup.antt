-- ===== src/Davinci/Setup.antt =====
-- davinciSetup.ts: the deal, and the score at the end.
use Prim.Native.String.{◌++◌ as str_append}
use yorr.Prelude.{
  ℕ, zero, suc, ◌+◌, ◌*◌, String, ℤ, pos, negsuc, leb_ℤ, eqb_ℤ, false, not, ◌&&◌, ◌||◌, none, some,
  List, [], ◌∷◌, ◌++◌, map, Dict, insert, length, get_elem?, head?, tail, take, slice, keep,
  includes, set_of, ltb, leb, eqb, str_eq, if◌then◌else◌, Result, ok, err, require, ◌>>=◌, ◌>>◌,
  decimal,
}
use yorr.Davinci.Types.{
  Color, black, white, Tile, State, guessing, joker, max_number, deck_size, min_players,
  max_players, many_players, hand_size_few, hand_size_many, guess_millis, at, hand_of,
}
use yorr.Davinci.Tiles.{compare_tiles, hidden_tiles}

unfoldable pub score_of : State → String → ℕ
score_of s player_id = at s.hits player_id 0 + length (hidden_tiles (hand_of s player_id))

-- A face of the standard set, before the shuffle.
pub record Face : Type 0 where
  pub color : Color
  pub number : ℤ

unfoldable pub faces_from : Color → ℕ → ℕ → List Face
faces_from c zero n = record { color = c; number = joker } ∷ []
faces_from c (suc left) n = record { color = c; number = pos n } ∷ faces_from c left (n + 1)

-- `DAVINCI_TILES`
unfoldable pub davinci_tiles : List Face
unfolding faces_from
davinci_tiles = faces_from black (max_number + 1) 0 ++ faces_from white (max_number + 1) 0

-- `order.map((tileIndex, position) => …)`
unfoldable pub shuffle_from : ℕ → List ℕ → Result (List Tile)
unfolding davinci_tiles decimal
shuffle_from position [] = ok []
shuffle_from position (tile_index ∷ rest) =
    let later = shuffle_from (position + 1) rest in
    elim (get_elem? davinci_tiles tile_index) [
      | none ↦ err "davinci_invalid_deck_order"
      | some face ↦ do
        tiles ← later
        ok (
            record {
              id = str_append "T" (decimal position);
              color = face.color;
              number = face.number;
              revealed = false;
            }
            ∷ tiles)
    ]

-- `sort((left, right) => compareTiles(left, right))`, which is stable.
unfoldable pub sort_insert : Tile → List Tile → List Tile
sort_insert t [] = t ∷ []
sort_insert t (x ∷ xs) =
    if leb_ℤ (compare_tiles t x) (pos 0) then t ∷ x ∷ xs else x ∷ sort_insert t xs

unfoldable pub sort_tiles : List Tile → List Tile
sort_tiles [] = []
sort_tiles (t ∷ ts) = sort_insert t (sort_tiles ts)

-- The loop over `players.entries()`.
unfoldable pub deal_hands : List Tile → ℕ → ℕ → List String → Dict (List Tile) → Dict (List Tile)
deal_hands dealt hand_size seat [] hands = hands
deal_hands dealt hand_size seat (p ∷ rest) hands =
    deal_hands dealt hand_size (seat + 1) rest
      (insert p (sort_tiles (slice (seat * hand_size) ((seat + 1) * hand_size) dealt)) hands)

unfoldable pub fill {ℓ} : {V : Type ℓ} → V → List String → Dict V → Dict V
fill v [] m = m
fill v (p ∷ rest) m = fill v rest (insert p v m)

unfoldable pub deal : List String → String → List Tile → ℕ → State
deal players turn_player_id shuffled now =
    let hand_size = if leb many_players (length players) then hand_size_many else hand_size_few in
    let dealable = keep (λ (t : Tile). not (eqb_ℤ t.number joker)) shuffled in
    let dealt = take (length players * hand_size) dealable in
    let dealt_ids = map (λ (t : Tile). t.id) dealt in
    let deck = keep (λ (t : Tile). not (includes dealt_ids t.id)) shuffled in
    record {
      version = 1;
      phase = guessing;
      player_order = players;
      turn_player_id = turn_player_id;
      hands = deal_hands dealt hand_size 0 players [];
      deck = tail deck;
      drawn = head? deck;
      turn = 1;
      eliminated = [];
      winner_id = none;
      hits = fill 0 players [];
      last_input_seq = fill (negsuc 0) players [];
      next_action_at = now + guess_millis;
      last_event = none;
    }

unfoldable pub initial_state : List String → List ℕ → ℕ → Result State
initial_state players order now = do
  require (not (ltb (length players) min_players || ltb max_players (length players)))
      "davinci_requires_two_to_four_players"
  require (eqb (length (set_of str_eq players)) (length players)) "davinci_duplicate_player"
  require (eqb (length order) deck_size && eqb (length (set_of eqb order)) deck_size)
      "davinci_invalid_deck_order"
  shuffled ← shuffle_from 0 order
  elim (head? players) [
    | none ↦ err "davinci_requires_two_to_four_players"
    | some first ↦ ok (deal players first shuffled now)
  ]
