-- ===== src/Davinci/Tiles.antt =====
-- davinciTiles.ts: the order of the tiles, and the place of a new one.
use yorr.Prelude.{
  ℕ, ◌+◌, ℤ, pos, negsuc, eqb_ℤ, leb_ℤ, ◌-ℤ◌, Bool, true, false, not, ◌&&◌, ◌||◌, List, [], ◌∷◌,
  ◌++◌, if◌then◌else◌, take, drop, keep,
}
use yorr.Davinci.Types.{Color, black, white, Tile, joker, max_number}

color_eq : Color → Color → Bool
color_eq black black = true
color_eq white white = true
color_eq _ _ = false

is_black : Color → Bool
is_black black = true
is_black white = false

unfoldable pub compare_tiles : Tile → Tile → ℤ
unfolding color_eq is_black
compare_tiles left right =
    if not (eqb_ℤ left.number right.number)
    then left.number -ℤ right.number
    else if color_eq left.color right.color
    then pos 0
    else if is_black left.color
    then negsuc 0
    else pos 1

-- The loop over `hand.entries()`.
unfoldable pub insert_loop : Tile → List Tile → ℕ → ℕ → ℕ
unfolding compare_tiles
insert_loop tile [] position index = index
insert_loop tile (other ∷ rest) position index = insert_loop tile rest (position + 1) (
    if eqb_ℤ other.number joker
    then index
    else if leb_ℤ (compare_tiles other tile) (pos 0)
    then position + 1
    else index)

unfoldable pub insert_index_of : List Tile → Tile → ℕ
unfolding insert_loop
insert_index_of hand tile = insert_loop tile hand 0 0

unfoldable pub insert_at : List Tile → Tile → ℕ → List Tile
insert_at hand tile index = take index hand ++ (tile ∷ drop index hand)

unfoldable pub is_guessable_number : ℤ → Bool
is_guessable_number value =
    eqb_ℤ value joker || (leb_ℤ (pos 0) value && leb_ℤ value (pos max_number))

abbrev pub hidden_tiles : List Tile → List Tile
hidden_tiles hand = keep (λ t. not t.revealed) hand
