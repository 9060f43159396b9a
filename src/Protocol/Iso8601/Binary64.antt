-- ===== src/Protocol/Iso8601/Binary64.antt =====
-- Go's float64, as far as the duration parser uses it: the nearest double of a decimal fraction, the
-- product with an integer, and the conversion to an integer, which drops the fraction. A value is
-- `mantissa * 2 ^ up / 2 ^ down`; all exponents that occur are far from the limits of the format.
use Prim.Native.Nat.{◌*◌}
use mutandae.Prelude.{
  ℕ, zero, suc, ◌+◌, ◌-◌, ◌*◌, ◌/◌, ◌%◌, ◌^◌, leb, ltb, if◌then◌else◌, ◌==◌, nat_eq, ◌&&◌,
}

pub record Float64 : Type 0 where
  pub mantissa : ℕ
  pub up : ℕ
  pub down : ℕ

-- The number of binary digits; the fuel bounds it.
bit_length_within : ℕ → ℕ → ℕ
bit_length_within zero n = 0
bit_length_within (suc fuel) n =
    let rest = suc (bit_length_within fuel (n / 2)) in if n == 0 then 0 else rest

bit_length : ℕ → ℕ
unfolding bit_length_within
bit_length n = bit_length_within (suc n) n

-- The quotient rounded to the nearest integer, ties to even.
half_even : ℕ → ℕ → ℕ
half_even p q =
    let n = p / q in
    let r = p % q in
    if ltb q (2 * r) then n + 1 else if (q == 2 * r) && (n % 2 == 1) then n + 1 else n

-- `p / q` scaled by `2 ^ up / 2 ^ down` and rounded.
scaled : ℕ → ℕ → ℕ → ℕ → Float64
unfolding half_even
scaled p q up down = record {
  mantissa = half_even (p * 2 ^ down) (q * 2 ^ up);
  up = up;
  down = down;
}

-- With `shift = a - b`, the quotient `p / q * 2 ^ shift` lies between `2 ^ 52` and `2 ^ 54`.
at_shift : ℕ → ℕ → ℕ → ℕ → Float64
unfolding scaled
at_shift p q a b = if leb b a then scaled p q 0 (a - b) else scaled p q (b - a) 0

-- The double nearest to `p / q`.
unfoldable pub nearest : ℕ → ℕ → Float64
unfolding bit_length at_shift
nearest p q =
    let a = 53 + bit_length q in
    let b = bit_length p in
    if p == 0
    then record { mantissa = 0; up = 0; down = 0 }
    else if ltb (p * 2 ^ (a - b)) (2 ^ 53 * (q * 2 ^ (b - a)))
    then at_shift p q a b
    else at_shift p q a (b + 1)

-- `x * float64(n)`, for an integer `n` that a double holds.
unfoldable pub times : Float64 → ℕ → Float64
unfolding nearest
times x n = nearest (x.mantissa * n * 2 ^ x.up) (2 ^ x.down)

-- The conversion to an integer type, for a value in its range.
unfoldable pub truncate : Float64 → ℕ
truncate x = x.mantissa * 2 ^ x.up / 2 ^ x.down
