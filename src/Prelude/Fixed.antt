-- ===== src/Prelude/Fixed.antt =====
-- `fmt`'s `%032x` and `%0nd` of numbers that fit.
use Prim.Native.Nat.{ℕ, zero, suc, ◌/◌, ◌%◌}
use Prim.Native.String.{String}
use mutandae.Prelude.Texts.{digit}
use mutandae.Prelude.Hex.{hex_digit}

hex_fixed : ℕ → ℕ → String → String
hex_fixed zero n out = out
hex_fixed (suc k) n out = hex_fixed k (n / 16) (String.◌∷◌ (hex_digit (n % 16)) out)

unfoldable pub hex_032 : ℕ → String
unfolding hex_fixed
hex_032 n = hex_fixed 32 n ""

decimal_digits : ℕ → ℕ → String → String
decimal_digits zero n out = out
decimal_digits (suc k) n out = decimal_digits k (n / 10) (String.◌∷◌ (digit (n % 10)) out)

-- The first number counts the digits.
unfoldable pub decimal_fixed : ℕ → ℕ → String
unfolding decimal_digits
decimal_fixed k n = decimal_digits k n ""
