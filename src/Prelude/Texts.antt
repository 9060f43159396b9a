-- ===== src/Prelude/Texts.antt =====
-- What the program uses of Go's `strings`, `fmt` and of the order of strings.
use Prim.Native.Nat.{ℕ, zero, suc, ◌/◌, ◌%◌}
use Prim.Native.Char.{Char, code}
use Prim.Native.String.{String}
use mathlib.Core.Bool.{Bool, true, false, ◌&&◌, ◌||◌}
use mutandae.Prelude.Tests.{ltb, leb, ◌==◌, string_eq, nat_eq, if◌then◌else◌}

-- `s + t`; by clauses, so that it computes at a literal `s`.
infixr 65 ◌<>◌
abbrev pub ◌<>◌ : String → String → String
String.[] <> t = t
(String.◌∷◌ c s) <> t = String.◌∷◌ c (s <> t)

-- `unicode.IsSpace`
abbrev pub is_space : Char → Bool
is_space c =
    let n = code c in
    (leb 9 n && leb n 13)
    || n == 32
    || n == 0x85
    || n == 0xa0
    || n == 0x1680
    || (leb 0x2000 n && leb n 0x200a)
    || n == 0x2028
    || n == 0x2029
    || n == 0x202f
    || n == 0x205f
    || n == 0x3000

trim_left : String → String
trim_left String.[] = ""
trim_left (String.◌∷◌ c s) = let rest = trim_left s in if is_space c then rest else String.◌∷◌ c s

trim_right : String → String
trim_right String.[] = ""
trim_right (String.◌∷◌ c s) =
    let rest = trim_right s in if is_space c && rest == "" then "" else String.◌∷◌ c rest

-- `strings.TrimSpace`
unfoldable pub trim_space : String → String
unfolding trim_left trim_right
trim_space s = trim_right (trim_left s)

-- Go orders strings by bytes, which is the order of their code points in UTF-8.
unfoldable pub str_lt : String → String → Bool
str_lt s String.[] = false
str_lt String.[] (String.◌∷◌ d t) = true
str_lt (String.◌∷◌ c s) (String.◌∷◌ d t) =
    let rest = str_lt s t in
    if ltb (code c) (code d) then true else if code c == code d then rest else false

-- The decimal digit of a number below ten.
abbrev pub digit : ℕ → Char
digit zero = "0"
digit (suc zero) = "1"
digit (suc (suc zero)) = "2"
digit (suc (suc (suc zero))) = "3"
digit (suc (suc (suc (suc zero)))) = "4"
digit (suc (suc (suc (suc (suc zero))))) = "5"
digit (suc (suc (suc (suc (suc (suc zero)))))) = "6"
digit (suc (suc (suc (suc (suc (suc (suc zero))))))) = "7"
digit (suc (suc (suc (suc (suc (suc (suc (suc zero)))))))) = "8"
digit _ = "9"

-- `fmt` prints the digits of a number before `out`; the fuel bounds their count.
unfoldable pub decimal_before : ℕ → ℕ → String → String
decimal_before zero n out = out
decimal_before (suc fuel) n out =
    let out' = String.◌∷◌ (digit (n % 10)) out in
    let rest = decimal_before fuel (n / 10) out' in if ltb n 10 then out' else rest

-- `%d` of a number that is not negative: it has at most as many digits as its successor counts.
unfoldable pub decimal : ℕ → String
unfolding decimal_before
decimal n = decimal_before (suc n) n ""

-- `%03d`
unfoldable pub decimal_03 : ℕ → String
unfolding decimal
decimal_03 n =
    if ltb n 10 then "00" <> decimal n else if ltb n 100 then "0" <> decimal n else decimal n
