-- ===== src/Prelude/Numerals.antt =====
-- Reading back what `fmt` prints of numbers.
use Prim.Native.Nat.{ℕ, zero, suc, ◌+◌, ◌-◌, ◌*◌, ◌/◌, ◌%◌, ◌<◌, ◌≤◌}
use Prim.Native.Char.{code}
use Prim.Native.String.{String}
use mathlib.Core.Path.{◌≡◌, refl, ap, ◌∙◌}
use mathlib.Core.Bool.{Bool, true, false}
use mathlib.Core.Logic.{inl, inr}
use native.Mathlib.Omega.{arith}
use mutandae.Prelude.Tests.{ltb, Bool-cases, if◌then◌else◌}
use mutandae.Prelude.Texts.{digit, decimal_before, decimal, decimal_03, ◌<>◌}

-- The number whose decimal digits follow those of `acc`.
unfoldable pub numeral : ℕ → String → ℕ
numeral acc String.[] = acc
numeral acc (String.◌∷◌ c s) = numeral (acc * 10 + (code c - 48)) s

code-digit : (n : ℕ) → n < 10 → code (digit n) - 48 ≡ n
code-digit zero h = refl
code-digit (suc zero) h = refl
code-digit (suc (suc zero)) h = refl
code-digit (suc (suc (suc zero))) h = refl
code-digit (suc (suc (suc (suc zero)))) h = refl
code-digit (suc (suc (suc (suc (suc zero))))) h = refl
code-digit (suc (suc (suc (suc (suc (suc zero)))))) h = refl
code-digit (suc (suc (suc (suc (suc (suc (suc zero))))))) h = refl
code-digit (suc (suc (suc (suc (suc (suc (suc (suc zero)))))))) h = refl
code-digit (suc (suc (suc (suc (suc (suc (suc (suc (suc n))))))))) h = omega arith

numeral-digit :
    (acc n : ℕ) (out : String)
    → n < 10
    → numeral acc (String.◌∷◌ (digit n) out) ≡ numeral (acc * 10 + n) out
unfolding numeral
numeral-digit acc n out h = ap (λ d. numeral (acc * 10 + d) out) (code-digit n h)

numeral-decimal_before :
    (fuel n : ℕ) (out : String) → n < fuel → numeral 0 (decimal_before fuel n out) ≡ numeral n out
unfolding decimal_before
numeral-decimal_before zero n out h = omega arith
numeral-decimal_before (suc fuel) n out h = elim (Bool-cases (ltb n 10)) [
  | inl e ↦
      let small : n < 10 = ground arith in
      let same : 0 * 10 + n % 10 ≡ n = omega arith in
      rw e (numeral-digit 0 (n % 10) out (omega arith) ∙ ap (λ m. numeral m out) same)
  | inr e ↦
      let big : 10 ≤ n = ground arith in
      let parts : n / 10 * 10 + n % 10 ≡ n = omega arith in
      rw e (
        numeral-decimal_before fuel (n / 10) _ (omega arith)
        ∙ numeral-digit (n / 10) (n % 10) out (omega arith)
        ∙ ap (λ m. numeral m out) parts)
]

numeral-decimal : (n : ℕ) → numeral 0 (decimal n) ≡ n
unfolding decimal numeral
numeral-decimal n = numeral-decimal_before (suc n) n "" (omega arith)

-- Leading zeros do not count.
numeral-padded :
    (once twice : Bool) (n : ℕ)
    → numeral 0 (if twice then "00" <> decimal n else if once then "0" <> decimal n else decimal n)
      ≡ n
unfolding numeral
numeral-padded once true n = numeral-decimal n
numeral-padded true false n = numeral-decimal n
numeral-padded false false n = numeral-decimal n

pub numeral-decimal_03 : (n : ℕ) → numeral 0 (decimal_03 n) ≡ n
unfolding decimal_03 decimal
numeral-decimal_03 n = numeral-padded (ltb n 100) (ltb n 10) n
