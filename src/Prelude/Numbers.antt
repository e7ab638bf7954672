-- ===== src/Prelude/Numbers.antt =====
-- Numbers in decimal, as `String(n)` writes and `Number(text)` reads them.
use Prim.Native.Nat.{ℕ, zero, suc, ◌+◌, ◌-◌, ◌*◌, ◌/◌, ◌%◌, ◌<◌}
use Prim.Native.Char.{code}
use Prim.Native.String.{String, ◌++◌}
use mathlib.Core.Path.{◌≡◌, refl, ap, ◌∙◌}
use mathlib.Core.Logic.{inl, inr}
use mathlib.Core.List.{List, [], ◌∷◌}
use mathlib.Core.Option.{none, some}
use native.Mathlib.Omega.{arith}
use text.Mathlib.TextLemmas.{cons-append, nil-append}
use yorr.Prelude.Tests.{ltb, if◌then◌else◌, Bool-cases}
use yorr.Prelude.Lists.{get_elem?}

unfoldable pub digits : List String
digits = "0" ∷ "1" ∷ "2" ∷ "3" ∷ "4" ∷ "5" ∷ "6" ∷ "7" ∷ "8" ∷ "9" ∷ []

unfoldable pub digit : ℕ → String
unfolding digits
digit n = elim (get_elem? digits n) [ none ↦ "" | some s ↦ s ]

-- A number in decimal; a number has at most as many digits as its value plus one.
unfoldable pub decimal_fuel : ℕ → ℕ → String
decimal_fuel zero n = ""
decimal_fuel (suc fuel) n =
    let rest = decimal_fuel fuel (n / 10) in if ltb n 10 then digit n else rest ++ digit (n % 10)

unfoldable pub decimal : ℕ → String
unfolding decimal_fuel digit
decimal n = decimal_fuel (n + 1) n

decimal_runs : decimal 207 ≡ "207"
unfolding decimal
decimal_runs = refl

-- `Number(text)` of a text that is a number in decimal; of other texts, which the source reads as NaN,
-- nothing is said.
number_from : ℕ → String → ℕ
number_from n String.[] = n
number_from n (String.◌∷◌ c s) = number_from (n * 10 + (code c - 48)) s

unfoldable pub number : String → ℕ
unfolding number_from
number s = number_from 0 s

number_from-append :
    (n : ℕ) (s t : String) → number_from n (s ++ t) ≡ number_from (number_from n s) t
unfolding number_from
number_from-append n String.[] t = rw (nil-append t) refl
number_from-append n (String.◌∷◌ c s) t =
    rw (cons-append c s t) (number_from-append (n * 10 + (code c - 48)) s t)

number_from-digit : (n d : ℕ) → d < 10 → number_from n (digit d) ≡ n * 10 + d
unfolding number_from digit digits
number_from-digit n zero h = refl
number_from-digit n (suc zero) h = refl
number_from-digit n (suc (suc zero)) h = refl
number_from-digit n (suc (suc (suc zero))) h = refl
number_from-digit n (suc (suc (suc (suc zero)))) h = refl
number_from-digit n (suc (suc (suc (suc (suc zero))))) h = refl
number_from-digit n (suc (suc (suc (suc (suc (suc zero)))))) h = refl
number_from-digit n (suc (suc (suc (suc (suc (suc (suc zero))))))) h = refl
number_from-digit n (suc (suc (suc (suc (suc (suc (suc (suc zero)))))))) h = refl
number_from-digit n (suc (suc (suc (suc (suc (suc (suc (suc (suc zero))))))))) h = refl
number_from-digit n (suc (suc (suc (suc (suc (suc (suc (suc (suc (suc d)))))))))) h = ground arith

number_from-decimal_fuel : (fuel n : ℕ) → n < fuel → number_from 0 (decimal_fuel fuel n) ≡ n
unfolding decimal_fuel
number_from-decimal_fuel zero n h = ground arith
number_from-decimal_fuel (suc fuel) n h = elim (Bool-cases (ltb n 10)) [
  | inl e ↦ ground (arith, number_from-digit 0 n)
  | inr e ↦ rw e (
      number_from-append 0 (decimal_fuel fuel (n / 10)) (digit (n % 10))
      ∙ ap (λ m. number_from m (digit (n % 10)))
          (number_from-decimal_fuel fuel (n / 10) (ground arith))
      ∙ number_from-digit (n / 10) (n % 10) (omega arith)
      ∙ omega arith)
]

-- What is written is read back.
pub number-decimal : (n : ℕ) → number (decimal n) ≡ n
unfolding number decimal
number-decimal n = number_from-decimal_fuel (n + 1) n (omega arith)
