-- ===== src/Prelude/Keys.antt =====
-- The keys of a JavaScript object, and what a write and a `delete` do to them.
use Prim.Native.Nat.{◌+◌}
use Prim.Native.String.{String}
use mathlib.Core.Path.{◌≡◌, refl}
use mathlib.Core.Logic.{inl, inr}
use mathlib.Core.Bool.{true, false, not, ◌&&◌, ◌||◌}
use mathlib.Core.Option.{none, some}
use mathlib.Core.List.{List, [], ◌∷◌, ◌++◌}
use native.Mathlib.Omega.{arith}
use text.Mathlib.TextEquality.{eq_iff}
use yorr.Prelude.Tests.{if◌then◌else◌, str_eq, str_eq→eq, Bool-cases}
use yorr.Prelude.Lists.{length, includes}
use yorr.Prelude.Objects.{Dict, lookup, insert}

-- Without every `k`.
abbrev pub without : String → List String → List String
without k [] = []
without k (x ∷ xs) = let rest = without k xs in if str_eq x k then rest else x ∷ rest

abbrev pub Distinct : List String → Type 0
Distinct [] = Unit {0}
Distinct (x ∷ xs) = (includes xs x ≡ false) × Distinct xs

pub includes-append :
    (xs : List String) (y k : String) → includes (xs ++ y ∷ []) k ≡ (includes xs k || str_eq y k)
includes-append [] y k = ground arith
includes-append (x ∷ xs) y k = ground (arith, includes-append xs y k)

pub includes-without :
    (k j : String) (xs : List String)
    → includes (without k xs) j ≡ (includes xs j && not (str_eq k j))
includes-without k j [] = refl
includes-without k j (x ∷ xs) =
    ground (arith, includes-without k j xs, eq_iff x k, eq_iff x j, eq_iff k j)

pub without_absent : (k : String) (xs : List String) → includes xs k ≡ false → without k xs ≡ xs
without_absent k [] h = refl
without_absent k (x ∷ xs) h = ground (arith, without_absent k xs)

pub length-without :
    (k : String) (xs : List String)
    → Distinct xs
    → includes xs k ≡ true
    → length (without k xs) + 1 ≡ length xs
length-without k [] d h = cc
length-without k (x ∷ xs) (fresh, d) h = elim (Bool-cases (str_eq x k)) [
  | inl e ↦
      let absent : includes xs k ≡ false = rw (str_eq→eq x k e) at fresh in
      rw (e, without_absent k xs absent) (omega arith)
  | inr e ↦ ground (arith, length-without k xs)
]

pub Distinct-append :
    (xs : List String) (y : String) → Distinct xs → includes xs y ≡ false → Distinct (xs ++ y ∷ [])
Distinct-append [] y d h = (refl, tt)
Distinct-append (x ∷ xs) y (fresh, d) h = (
  ground (arith, includes-append xs y x, eq_iff x y, eq_iff y x),
  Distinct-append xs y d (ground arith),
)

pub Distinct-without : (k : String) (xs : List String) → Distinct xs → Distinct (without k xs)
Distinct-without k [] d = tt
Distinct-without k (x ∷ xs) (fresh, d) = elim (Bool-cases (str_eq x k)) [
  | inl e ↦ rw e (Distinct-without k xs d)
  | inr e ↦ rw e (ground (arith, includes-without k x xs), Distinct-without k xs d)
]

module _ {ℓ} {V : Type ℓ} where
  -- `Object.keys(values)`, and `hkeys`
  abbrev pub keys : Dict V → List String
  keys [] = []
  keys ((k, v) ∷ m) = k ∷ keys m

  -- `delete values[key]`
  unfoldable pub delete : (key : String) (values : Dict V) → Dict V
  delete key [] = []
  delete key ((name, value) ∷ rest) =
      let kept = delete key rest in if str_eq name key then kept else (name, value) ∷ kept

  pub lookup-delete :
      (gone read : String) (values : Dict V)
      → lookup read (delete gone values) ≡ (if str_eq gone read then none else lookup read values)
  unfolding delete lookup
  lookup-delete gone read [] = ground arith
  lookup-delete gone read ((name, value) ∷ rest) =
      ground
        (arith, lookup-delete gone read rest, eq_iff name gone, eq_iff name read, eq_iff gone read)

  pub keys-delete : (k : String) (m : Dict V) → keys (delete k m) ≡ without k (keys m)
  unfolding delete
  keys-delete k [] = refl
  keys-delete k ((j, v) ∷ m) = ground (arith, keys-delete k m)

  pub keys-insert :
      (k : String) (v : V) (m : Dict V)
      → keys (insert k v m) ≡ (if includes (keys m) k then keys m else keys m ++ k ∷ [])
  unfolding insert
  keys-insert k v [] = refl
  keys-insert k v ((j, w) ∷ m) = ground (arith, keys-insert k v m)

  -- A key is there if a read of it gives something.
  pub lookup-some_iff :
      (k : String) (m : Dict V)
      → includes (keys m) k ≡ (elim (lookup k m) [ none ↦ false | some v ↦ true ])
  unfolding lookup
  lookup-some_iff k [] = refl
  lookup-some_iff k ((j, v) ∷ m) = ground (arith, lookup-some_iff k m)

  pub length-keys : (m : Dict V) → length (keys m) ≡ length m
  length-keys [] = refl
  length-keys ((k, v) ∷ m) = omega (arith, length-keys m)
