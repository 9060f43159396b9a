-- ===== src/Lifecycle/Integration/Guarding.antt =====
-- `secureEqual` of internal/lifecycle/integration.go. Go's `range` over a string visits the first byte
-- of each of its characters, so the comparison is over the bytes of UTF-8.
use mutandae.Prelude.{
  ℕ, zero, suc, ◌+◌, ◌/◌, ◌%◌, ◌<◌, String, ◌≡◌, ◌↔◌, refl, ◌∙◌, ap, arith, Bool, true, false, ◌&&◌,
  List, [], ◌∷◌, ◌++◌, length, ltb, ◌==◌, nat_eq, if◌then◌else◌,
}
use Prim.Native.Char.{Char, code}
use text.Mathlib.TextEquality.{Char-path}

-- The UTF-8 of a code point.
abbrev utf8 : ℕ → List ℕ
utf8 n =
    if ltb n 0x80
    then n ∷ []
    else if ltb n 0x800
    then (0xc0 + n / 64) ∷ (0x80 + n % 64) ∷ []
    else if ltb n 0x10000
    then (0xe0 + n / 4096) ∷ (0x80 + n / 64 % 64) ∷ (0x80 + n % 64) ∷ []
    else (0xf0 + n / 262144) ∷ (0x80 + n / 4096 % 64) ∷ (0x80 + n / 64 % 64) ∷ (0x80 + n % 64) ∷ []

abbrev bytes : String → List ℕ
bytes String.[] = []
bytes (String.◌∷◌ c s) = utf8 (code c) ++ bytes s

abbrev drop : ℕ → List ℕ → List ℕ
drop zero xs = xs
drop (suc n) [] = []
drop (suc n) (x ∷ xs) = drop n xs

abbrev heads_equal : List ℕ → List ℕ → Bool
heads_equal (x ∷ xs) (y ∷ ys) = x == y
heads_equal _ _ = false

-- The loop: `mismatch` stays zero if the byte at the start of each character is the same.
starts_equal : String → List ℕ → Bool
starts_equal String.[] ys = true
starts_equal (String.◌∷◌ c s) ys =
    heads_equal (utf8 (code c)) ys && starts_equal s (drop (length (utf8 (code c))) ys)

unfoldable pub secure_equal : String → String → Bool
unfolding starts_equal
secure_equal a b = length (bytes a) == length (bytes b) && starts_equal a (bytes b)

-- All characters are ASCII.
abbrev pub IsAscii : String → Type 0
IsAscii String.[] = Unit
IsAscii (String.◌∷◌ c s) = (code c < 0x80) × IsAscii s

two_letters : secure_equal "é" "è" ≡ true
unfolding secure_equal
two_letters = refl

starts_of_self : (a : String) → IsAscii a → starts_equal a (bytes a) ≡ true
unfolding starts_equal
starts_of_self String.[] h = refl
starts_of_self (String.◌∷◌ c s) (low, h) = ground (arith, starts_of_self s h)

-- An ASCII character starts no other character's bytes.
same_char :
    (c d : Char) (rest : List ℕ)
    → code c < 0x80
    → heads_equal (utf8 (code c)) (utf8 (code d) ++ rest) ≡ true
    → c ≡ d
same_char c d rest low h = Char-path c d (ground arith)

equal_of_starts :
    (a b : String)
    → IsAscii a
    → length (bytes a) ≡ length (bytes b)
    → starts_equal a (bytes b) ≡ true
    → a ≡ b
unfolding starts_equal
equal_of_starts String.[] String.[] h long starts = refl
equal_of_starts String.[] (String.◌∷◌ d t) h long starts = absurd (ground arith)
equal_of_starts (String.◌∷◌ c s) String.[] (low, h) long starts = absurd (ground arith)
equal_of_starts (String.◌∷◌ c s) (String.◌∷◌ d t) (low, h) long starts =
    let same = same_char c d (bytes t) low (ground arith) in
    let low' : code d < 0x80 = rw (← same) low in
    let tail = equal_of_starts s t h (ground arith) (ground arith) in
    ap (λ e. String.◌∷◌ e s) same ∙ ap (λ r. String.◌∷◌ d r) tail

-- Of an ASCII text and any text, the comparison of secureEqual, which reads one byte of each
-- character, holds exactly if the texts are the same.
pub secure_equal_lem : (a b : String) → IsAscii a → (secure_equal a b ≡ true) ↔ (a ≡ b)
unfolding secure_equal
secure_equal_lem a b h = (
  λ e. equal_of_starts a b h (ground arith) (ground arith),
  λ e. rw (← e) (ground (arith, starts_of_self a h)),
)
