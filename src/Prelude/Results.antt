-- ===== src/Prelude/Results.antt =====
-- Calls that throw: the value, or the code of the error; and the test for a blank text.
use Prim.Native.Nat.{ℕ}
use Prim.Native.Char.{code}
use Prim.Native.String.{String}
use mathlib.Core.Path.{◌≡◌, refl}
use mathlib.Core.Logic.{◌⊎◌, inl, inr}
use mathlib.Core.Bool.{Bool, true, false, ◌&&◌, ◌||◌}
use yorr.Prelude.Tests.{leb, eqb}

pub data Result {ℓ} (Value : Type ℓ) : Type ℓ where
  err : (code : String) → Result Value
  ok : (value : Value) → Result Value

module _ {ℓ κ} {From : Type ℓ} {To : Type κ} where
  infixl 5 ◌>>=◌
  -- The next statement, with the value of the call before it.
  abbrev pub ◌>>=◌ : (call : Result From) (next : From → Result To) → Result To
  err code >>= next = err code
  ok value >>= next = next value

  infixl 5 ◌>>◌
  -- The next statement, where the call before it only throws or returns.
  abbrev pub ◌>>◌ : (call : Result From) (next : Result To) → Result To
  call >> next = call >>= λ _. next

-- `if (!test) throw new DomainError(code)`
abbrev pub require : Bool → String → Result (Unit {0})
require true e = ok tt
require false e = err e

-- The white space and line ends that `trim` takes off.
unfoldable pub is_space : ℕ → Bool
is_space c =
    (leb 9 c && leb c 13)
    || eqb c 32
    || eqb c 160
    || eqb c 5760
    || (leb 8192 c && leb c 8202)
    || eqb c 8232
    || eqb c 8233
    || eqb c 8239
    || eqb c 8287
    || eqb c 12288
    || eqb c 65279

-- `text.trim().length === 0`
unfoldable pub is_blank : String → Bool
unfolding is_space
is_blank String.[] = true
is_blank (String.◌∷◌ c s) = is_space (code c) && is_blank s

pub Result-cases {ℓ} :
    {A : Type ℓ} (r : Result A) → ((a : A) × (r ≡ ok a)) ⊎ ((e : String) × (r ≡ err e))
Result-cases (ok a) = inl (a, refl)
Result-cases (err e) = inr (e, refl)
