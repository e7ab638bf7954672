-- ===== src/Prelude/Objects.antt =====
-- A JavaScript object with string keys, in insertion order. A write to a key that is there keeps the
-- key's place.
use Prim.Native.String.{String}
use mathlib.Core.Path.{◌≡◌, refl}
use mathlib.Core.List.{List, [], ◌∷◌}
use mathlib.Core.Option.{Option, none, some}
use native.Mathlib.Omega.{arith}
use text.Mathlib.TextEquality.{eq_iff}
use mathlib.Core.Logic.{◌≢◌, inl, inr}
use text.Mathlib.TextPositions.{eq_refl}
use yorr.Prelude.Tests.{if◌then◌else◌, str_eq, ne→str_eq, Bool-cases}

abbrev pub Dict {ℓ} : Type ℓ → Type ℓ
Dict V = List (String × V)

module _ {ℓ} {V : Type ℓ} where
  -- `values[key]`
  unfoldable pub lookup : (key : String) (values : Dict V) → Option V
  lookup key ((name, value) ∷ rest) = if str_eq name key then some value else lookup key rest
  lookup key [] = none

  -- `values[key] = value`
  unfoldable pub insert : (key : String) (value : V) (values : Dict V) → Dict V
  insert key value ((name, old) ∷ rest) =
      let written = insert key value rest in
      (name, if str_eq name key then value else old) ∷ (if str_eq name key then rest else written)
  insert key value [] = (key, value) ∷ []

  -- `values[k] ?? fallback`
  unfoldable pub lookup_or : Dict V → String → V → V
  unfolding lookup
  lookup_or m k fallback = elim (lookup k m) [ none ↦ fallback | some v ↦ v ]

  -- A read sees the value written under its own key and, under any other key, what was there.
  pub lookup-insert :
      (written read : String) (value : V) (values : Dict V)
      → lookup read (insert written value values)
        ≡ (if str_eq written read then some value else lookup read values)
  unfolding insert lookup
  lookup-insert written read value ((name, old) ∷ rest) =
      let later = lookup-insert written read value rest in
      elim (Bool-cases (str_eq name written)) [
        | inl here ↦ ground (arith, eq_iff name written, here)
        | inr there ↦ ground (arith, eq_iff written read, eq_iff name written, eq_iff name read)
      ]
  lookup-insert written read value [] = refl

  pub lookup_or-insert :
      (k j : String) (v fallback : V) (m : Dict V)
      → lookup_or (insert k v m) j fallback ≡ (if str_eq k j then v else lookup_or m j fallback)
  unfolding lookup_or
  lookup_or-insert k j v fallback m = ground (arith, lookup-insert k j v m)

  pub lookup_or-insert_self :
      (k : String) (v fallback : V) (m : Dict V) → lookup_or (insert k v m) k fallback ≡ v
  lookup_or-insert_self k v fallback m = simp (lookup_or-insert, eq_refl)

  pub lookup_or-insert_ne :
      (k j : String) (v fallback : V) (m : Dict V)
      → k ≢ j
      → lookup_or (insert k v m) j fallback ≡ lookup_or m j fallback
  lookup_or-insert_ne k j v fallback m ne = rw (lookup_or-insert k j v fallback m, ne→str_eq k j ne)
