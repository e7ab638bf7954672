-- ===== src/Prelude/Signed.antt =====
-- Integers in decimal, as `String(n)` writes and `Number(text)` reads them.
use Prim.Native.Nat.{ℕ, zero, suc, ◌+◌, ◌/◌, ◌%◌}
use Prim.Native.Char.{code}
use Prim.Native.String.{String, ◌++◌}
use mathlib.Core.Path.{◌≡◌, refl}
use mathlib.Core.Logic.{inl, inr}
use mathlib.Core.Bool.{Bool, false}
use text.Mathlib.TextLemmas.{cons-append, nil-append}
use yorr.Prelude.Tests.{if◌then◌else◌, eqb, ltb, Bool-cases}
use yorr.Prelude.Int.{ℤ, pos, negsuc}
use yorr.Prelude.Numbers.{decimal, decimal_fuel, digit, digits, number, number-decimal}

unfoldable pub integer_text : ℤ → String
integer_text (pos n) = decimal n
integer_text (negsuc n) = "-" ++ decimal (n + 1)

-- -n
abbrev pub negated : ℕ → ℤ
negated zero = pos 0
negated (suc n) = negsuc n

has_minus : String → Bool
has_minus String.[] = false
has_minus (String.◌∷◌ c s) = eqb (code c) 45

after_first : String → String
after_first String.[] = ""
after_first (String.◌∷◌ c s) = s

unfoldable pub integer : String → ℤ
unfolding has_minus after_first
integer s = if has_minus s then negated (number (after_first s)) else pos (number s)

has_minus-append :
    (s t : String) → has_minus s ≡ false → has_minus t ≡ false → has_minus (s ++ t) ≡ false
unfolding has_minus
has_minus-append String.[] t h k = rw (nil-append t) k
has_minus-append (String.◌∷◌ c s) t h k = rw (cons-append c s t) h

has_minus-digit : (d : ℕ) → has_minus (digit d) ≡ false
unfolding has_minus digit digits
has_minus-digit zero = refl
has_minus-digit (suc zero) = refl
has_minus-digit (suc (suc zero)) = refl
has_minus-digit (suc (suc (suc zero))) = refl
has_minus-digit (suc (suc (suc (suc zero)))) = refl
has_minus-digit (suc (suc (suc (suc (suc zero))))) = refl
has_minus-digit (suc (suc (suc (suc (suc (suc zero)))))) = refl
has_minus-digit (suc (suc (suc (suc (suc (suc (suc zero))))))) = refl
has_minus-digit (suc (suc (suc (suc (suc (suc (suc (suc zero)))))))) = refl
has_minus-digit (suc (suc (suc (suc (suc (suc (suc (suc (suc zero))))))))) = refl
has_minus-digit (suc (suc (suc (suc (suc (suc (suc (suc (suc (suc d)))))))))) = refl

has_minus_empty : has_minus "" ≡ false
unfolding has_minus
has_minus_empty = refl

has_minus-decimal : (fuel n : ℕ) → has_minus (decimal_fuel fuel n) ≡ false
unfolding decimal_fuel
has_minus-decimal zero n = has_minus_empty
has_minus-decimal (suc fuel) n = elim (Bool-cases (ltb n 10)) [
  | inl e ↦ rw e (has_minus-digit n)
  | inr e ↦ rw e (
      has_minus-append (decimal_fuel fuel (n / 10)) (digit (n % 10))
        (has_minus-decimal fuel (n / 10)) (has_minus-digit (n % 10)))
]

-- What is written is read back.
pub integer-decimal : (n : ℕ) → integer (decimal n) ≡ pos n
unfolding integer decimal
integer-decimal n = rw (has_minus-decimal (n + 1) n) (rw (number-decimal n) refl)
