-- ===== src/Davinci/Order/Insertion.antt =====
-- One hand, and the place that `insertIndexOf` finds in it.
use yorr.Prelude.{
  ℕ, zero, suc, ◌+◌, pos, pos_part, neg_part, ◌*◌, ◌≤◌, leb_ℤ, eqb_ℤ, ◌≡◌, refl, Bool, true, false,
  not, ◌&&◌, ◌||◌, List, [], ◌∷◌, ◌++◌, arith, if◌then◌else◌, String, str_eq, Bool-cases, inl, inr,
}
use yorr.Davinci.Types.{Color, black, white, Tile, joker}
use yorr.Davinci.Tiles.{compare_tiles, insert_loop, insert_index_of, insert_at}
use yorr.Davinci.TurnFlow.{reveal_tile}
use yorr.Davinci.Rules.{reveal_all}

abbrev pub is_joker : Tile → Bool
is_joker t = eqb_ℤ t.number joker

unfoldable pub le_tile : Tile → Tile → Bool
le_tile a b = leb_ℤ (compare_tiles a b) (pos 0)

-- No tile of the list but a joker stands before `t` in the order.
abbrev pub Below : Tile → List Tile → Type 0
Below t [] = Unit {0}
Below t (x ∷ xs) = (is_joker x ≡ false → le_tile t x ≡ true) × Below t xs

abbrev pub IsSorted : List Tile → Type 0
IsSorted [] = Unit {0}
IsSorted (x ∷ xs) = (is_joker x ≡ false → Below x xs) × IsSorted xs

pub le_tile_total : (a b : Tile) → le_tile a b ≡ false → le_tile b a ≡ true
unfolding le_tile compare_tiles
le_tile_total a b h = ground arith

rank : Color → ℕ
rank black = 0
rank white = 1

-- Twice the number plus the colour's rank orders the tiles.
KeyLe : Tile → Tile → Type 0
KeyLe a b =
    2 * pos_part a.number + rank a.color + 2 * neg_part b.number
    ≤ 2 * pos_part b.number + rank b.color + 2 * neg_part a.number

KeyLe-of_le_tile : (a b : Tile) → le_tile a b ≡ true → KeyLe a b
unfolding le_tile compare_tiles KeyLe rank
KeyLe-of_le_tile a b h = ground arith

le_tile_of_KeyLe : (a b : Tile) → KeyLe a b → le_tile a b ≡ true
unfolding le_tile compare_tiles KeyLe rank
le_tile_of_KeyLe a b h = ground arith

KeyLe-trans : (a b c : Tile) → KeyLe a b → KeyLe b c → KeyLe a c
unfolding KeyLe
KeyLe-trans a b c h k = omega arith

pub le_tile_trans : (a b c : Tile) → le_tile a b ≡ true → le_tile b c ≡ true → le_tile a c ≡ true
le_tile_trans a b c h k =
    le_tile_of_KeyLe a c (KeyLe-trans a b c (KeyLe-of_le_tile a b h) (KeyLe-of_le_tile b c k))

-- Some tile that is no joker comes before `tile`, or level with it.
has_le : Tile → List Tile → Bool
has_le tile [] = false
has_le tile (x ∷ xs) = (not (is_joker x) && le_tile x tile) || has_le tile xs

insert_loop-eq :
    (tile : Tile) (hand : List Tile) (p i : ℕ)
    → insert_loop tile hand p i ≡ (if has_le tile hand then p + insert_loop tile hand 0 0 else i)
unfolding insert_loop has_le le_tile
insert_loop-eq tile [] p i = ground arith
insert_loop-eq tile (x ∷ xs) p i =
    let best = λ (q j : ℕ).
      if eqb_ℤ x.number joker
      then j
      else if leb_ℤ (compare_tiles x tile) (pos 0)
      then q + 1
      else j in
    ground (arith, insert_loop-eq tile xs (p + 1) (best p i), insert_loop-eq tile xs 1 (best 0 0))

Below-trans : (s t : Tile) (xs : List Tile) → le_tile s t ≡ true → Below t xs → Below s xs
Below-trans s t [] h b = tt
Below-trans s t (x ∷ xs) h b = ((λ n. le_tile_trans s t x h (b.0 n)), Below-trans s t xs h b.1)

Below-append : (t : Tile) (xs ys : List Tile) → Below t xs → Below t ys → Below t (xs ++ ys)
Below-append t [] ys b c = c
Below-append t (x ∷ xs) ys b c = (b.0, Below-append t xs ys b.1 c)

Below-insert_at :
    (t x : Tile) (hand : List Tile) (i : ℕ)
    → (is_joker x ≡ false → le_tile t x ≡ true)
    → Below t hand
    → Below t (insert_at hand x i)
unfolding insert_at
Below-insert_at t x hand zero h b = (h, b)
Below-insert_at t x [] (suc i) h b = (h, tt)
Below-insert_at t x (y ∷ ys) (suc i) h b = (b.0, Below-insert_at t x ys i h b.1)

-- A joker may stand anywhere.
pub IsSorted-insert_at_joker :
    (hand : List Tile) (t : Tile) (i : ℕ)
    → is_joker t ≡ true
    → IsSorted hand
    → IsSorted (insert_at hand t i)
unfolding insert_at
IsSorted-insert_at_joker hand t zero j s = ((λ n. cc), s)
IsSorted-insert_at_joker [] t (suc i) j s = ((λ n. cc), tt)
IsSorted-insert_at_joker (x ∷ xs) t (suc i) j s =
    ((λ n. Below-insert_at x t xs i (λ m. cc) (s.0 n)), IsSorted-insert_at_joker xs t i j s.1)

le_of_has_le :
    (o tile : Tile) (xs : List Tile) → Below o xs → has_le tile xs ≡ true → le_tile o tile ≡ true
unfolding has_le
le_of_has_le o tile [] b h = cc
le_of_has_le o tile (x ∷ xs) b h =
    ground (arith, le_tile_trans o x tile, le_of_has_le o tile xs b.1)

Below-of_not_has_le : (tile : Tile) (xs : List Tile) → has_le tile xs ≡ false → Below tile xs
unfolding has_le
Below-of_not_has_le tile [] h = tt
Below-of_not_has_le tile (x ∷ xs) h =
    ((λ n. le_tile_total x tile (ground arith)), Below-of_not_has_le tile xs (ground arith))

insert_loop_cons :
    (tile x : Tile) (xs : List Tile)
    → insert_loop tile (x ∷ xs) 0 0 ≡ (
        if has_le tile xs
        then suc (insert_loop tile xs 0 0)
        else if not (is_joker x) && le_tile x tile
        then 1
        else 0)
unfolding insert_loop le_tile
insert_loop_cons tile x xs = ground (
  arith,
  insert_loop-eq tile xs 1
      (if eqb_ℤ x.number joker then 0 else if leb_ℤ (compare_tiles x tile) (pos 0) then 1 else 0),
)

-- A tile that is no joker, put where `insertIndexOf` says, leaves the hand sorted.
IsSorted-insert_loop :
    (hand : List Tile) (tile : Tile)
    → is_joker tile ≡ false
    → IsSorted hand
    → IsSorted (insert_at hand tile (insert_loop tile hand 0 0))
unfolding insert_at
IsSorted-insert_loop [] tile n s = unfold insert_loop in ((λ _. tt), tt)
IsSorted-insert_loop (x ∷ xs) tile n s =
    let ih = IsSorted-insert_loop xs tile n s.1 in
    rw (insert_loop_cons tile x xs) (elim (Bool-cases (has_le tile xs)) [
      | inl later ↦ rw later (
        (λ m. Below-insert_at x tile xs _ (λ _. le_of_has_le x tile xs (s.0 m) later) (s.0 m)),
        ih,
      )
      | inr none_later ↦
          let rest = Below-of_not_has_le tile xs none_later in
          elim (Bool-cases (not (is_joker x) && le_tile x tile)) [
            | inl here ↦
                rw (none_later, here) ((λ m. ((λ _. ground arith), s.0 m)), ((λ _. rest), s.1))
            | inr first ↦
                rw (none_later, first)
                  ((λ _. ((λ m. le_tile_total x tile (ground arith)), rest)), s)
          ]
    ])

pub IsSorted-insert_index_of :
    (hand : List Tile) (tile : Tile)
    → is_joker tile ≡ false
    → IsSorted hand
    → IsSorted (insert_at hand tile (insert_index_of hand tile))
unfolding insert_index_of
IsSorted-insert_index_of hand tile n s = IsSorted-insert_loop hand tile n s

-- Tiles that differ in their sides only are level.
le_tile_same : (a b : Tile) → a.number ≡ b.number → a.color ≡ b.color → le_tile a b ≡ true
le_tile_same a b n c = le_tile_of_KeyLe a b (unfold KeyLe in rw (n, c) (omega arith))

-- Showing a tile moves none.
Below-reveal_tile :
    (t : Tile) (id : String) (xs : List Tile) → Below t xs → Below t (reveal_tile id xs)
unfolding reveal_tile le_tile compare_tiles
Below-reveal_tile t id [] b = tt
Below-reveal_tile t id (x ∷ xs) b = (ground arith, Below-reveal_tile t id xs b.1)

Below-reveal_all : (t : Tile) (xs : List Tile) → Below t xs → Below t (reveal_all xs)
unfolding reveal_all le_tile compare_tiles
Below-reveal_all t [] b = tt
Below-reveal_all t (x ∷ xs) b = (b.0, Below-reveal_all t xs b.1)

Below-shown : (x : Tile) (xs : List Tile) → Below x xs → Below (record x { revealed = true }) xs
Below-shown x xs b =
    let shown : Tile = record x { revealed = true } in
    Below-trans shown x xs (le_tile_same shown x refl refl) b

pub IsSorted-reveal_tile :
    (id : String) (xs : List Tile) → IsSorted xs → IsSorted (reveal_tile id xs)
unfolding reveal_tile
IsSorted-reveal_tile id [] s = tt
IsSorted-reveal_tile id (x ∷ xs) s =
    let ih = IsSorted-reveal_tile id xs s.1 in
    elim (Bool-cases (str_eq x.id id)) [
      | inl e ↦ rw e ((λ n. Below-shown x _ (Below-reveal_tile x id xs (s.0 n))), ih)
      | inr e ↦ rw e ((λ n. Below-reveal_tile x id xs (s.0 n)), ih)
    ]

pub IsSorted-reveal_all : (xs : List Tile) → IsSorted xs → IsSorted (reveal_all xs)
unfolding reveal_all
IsSorted-reveal_all [] s = tt
IsSorted-reveal_all (x ∷ xs) s =
    ((λ n. Below-shown x _ (Below-reveal_all x xs (s.0 n))), IsSorted-reveal_all xs s.1)
