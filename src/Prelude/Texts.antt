-- ===== src/Prelude/Texts.antt =====
-- The order of JavaScript strings, by their UTF-16 code units, and `sort` with no comparison.
use Prim.Native.Nat.{ℕ, ◌+◌, ◌-◌, ◌/◌, ◌%◌}
use Prim.Native.Char.{code}
use Prim.Native.String.{String}
use mathlib.Core.Path.{◌≡◌, refl}
use mathlib.Core.Logic.{inl, inr}
use mathlib.Core.Bool.{Bool, true, false, ◌&&◌, ◌||◌}
use mathlib.Core.List.{List, [], ◌∷◌}
use native.Mathlib.Omega.{arith}
use yorr.Prelude.Tests.{if◌then◌else◌, eqb, ltb, str_eq, Bool-cases}
use yorr.Prelude.Lists.{includes}

-- A character beyond the first plane is two code units.
units : String → List ℕ
units String.[] = []
units (String.◌∷◌ c s) =
    let rest = units s in
    if ltb (code c) 65536
    then code c ∷ rest
    else (55296 + (code c - 65536) / 1024) ∷ (56320 + (code c - 65536) % 1024) ∷ rest

units_lt : List ℕ → List ℕ → Bool
units_lt [] [] = false
units_lt [] (b ∷ bs) = true
units_lt (a ∷ as') [] = false
units_lt (a ∷ as') (b ∷ bs) = ltb a b || (eqb a b && units_lt as' bs)

-- `a < b`
unfoldable pub text_lt : String → String → Bool
unfolding units units_lt
text_lt a b = units_lt (units a) (units b)

unfoldable pub insert_text : String → List String → List String
insert_text x [] = x ∷ []
insert_text x (y ∷ ys) =
    let later = insert_text x ys in if text_lt y x then y ∷ later else x ∷ y ∷ ys

unfoldable pub sort_texts : List String → List String
unfolding insert_text
sort_texts [] = []
sort_texts (x ∷ xs) = insert_text x (sort_texts xs)

includes-insert_text :
    (x k : String) (xs : List String)
    → includes (insert_text x xs) k ≡ (str_eq x k || includes xs k)
unfolding insert_text
includes-insert_text x k [] = refl
includes-insert_text x k (y ∷ ys) = elim (Bool-cases (text_lt y x)) [
  | inl e ↦ rw e (ground (arith, includes-insert_text x k ys))
  | inr e ↦ rw e refl
]

-- Sorting keeps the members.
pub includes-sort_texts :
    (xs : List String) (k : String) → includes (sort_texts xs) k ≡ includes xs k
unfolding sort_texts
includes-sort_texts [] k = refl
includes-sort_texts (x ∷ xs) k =
    ground (arith, includes-insert_text x k (sort_texts xs), includes-sort_texts xs k)
