-- ===== src/Prelude/Hex.antt =====
-- Hexadecimal text, slices of texts of one-byte characters, and lower case.
use Prim.Native.Nat.{ℕ, zero, suc, ◌-◌, ◌/◌, ◌%◌}
use Prim.Native.Char.{Char, code}
use Prim.Native.String.{String}
use mathlib.Core.Bool.{◌&&◌}
use mathlib.Core.List.{List, [], ◌∷◌}
use mutandae.Prelude.Tests.{ltb, leb, ◌==◌, nat_eq, if◌then◌else◌}
use mutandae.Prelude.Texts.{digit}

abbrev pub hex_letter : ℕ → Char
hex_letter zero = "a"
hex_letter (suc zero) = "b"
hex_letter (suc (suc zero)) = "c"
hex_letter (suc (suc (suc zero))) = "d"
hex_letter (suc (suc (suc (suc zero)))) = "e"
hex_letter _ = "f"

abbrev pub hex_digit : ℕ → Char
hex_digit n = if ltb n 10 then digit n else hex_letter (n - 10)

-- `hex.EncodeToString`
unfoldable pub hex : List ℕ → String
hex [] = ""
hex (b ∷ bs) = String.◌∷◌ (hex_digit (b / 16 % 16)) (String.◌∷◌ (hex_digit (b % 16)) (hex bs))

abbrev pub size : String → ℕ
size String.[] = 0
size (String.◌∷◌ c s) = suc (size s)

abbrev pub first : ℕ → String → String
first zero s = ""
first (suc n) String.[] = ""
first (suc n) (String.◌∷◌ c s) = String.◌∷◌ c (first n s)

abbrev pub skip : ℕ → String → String
skip zero s = s
skip (suc n) String.[] = ""
skip (suc n) (String.◌∷◌ c s) = skip n s

abbrev alphabet : List Char
alphabet =
    "a" ∷ "b" ∷ "c" ∷ "d" ∷ "e" ∷ "f" ∷ "g" ∷ "h" ∷ "i" ∷ "j" ∷ "k" ∷ "l" ∷ "m" ∷ "n" ∷ "o" ∷ "p"
    ∷ "q" ∷ "r" ∷ "s" ∷ "t" ∷ "u" ∷ "v" ∷ "w" ∷ "x" ∷ "y" ∷ "z" ∷ []

abbrev nth_letter : List Char → ℕ → Char → Char
nth_letter [] n d = d
nth_letter (c ∷ cs) zero d = c
nth_letter (c ∷ cs) (suc n) d = nth_letter cs n d

-- `unicode.ToLower`, exact as far as the result is an ASCII letter.
abbrev pub lower_char : Char → Char
lower_char c =
    let n = code c in
    if leb b'A' n && leb n b'Z'
    then nth_letter alphabet (n - b'A') c
    else if n == 0x212a
    then "k"
    else if n == 0x130
    then "i"
    else c

-- `strings.ToLower`
unfoldable pub lower : String → String
lower String.[] = ""
lower (String.◌∷◌ c s) = String.◌∷◌ (lower_char c) (lower s)
