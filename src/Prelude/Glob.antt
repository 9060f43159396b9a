-- ===== src/Prelude/Glob.antt =====
-- `path.Match` of Go's standard library, over code points: the pattern is scanned into tests and
-- stars, and matched chunk by chunk, each chunk behind a star at the first place where it fits. On a
-- name of ASCII characters this is Go's loop over bytes.
use Prim.Native.Nat.{ℕ}
use mathlib.Core.Bool.{Bool, true, false, not, ◌&&◌, ◌||◌}
use mathlib.Core.List.{List, [], ◌∷◌, reverse}
use mathlib.Core.Option.{Option, none, some}
use mutandae.Prelude.Tests.{leb, ◌==◌, nat_eq, if◌then◌else◌}
use mutandae.Prelude.Lists.{any}

-- What one character of the name has to be; a class is negated or not, with its ranges.
pub data Test : Type 0 where
  one : ℕ → Test
  any_but_slash : Test
  class : Bool → List (ℕ × ℕ) → Test

pub data Term : Type 0 where
  star : Term
  test : Test → Term

-- The scan of a pattern: what has been read, in reverse, and inside which construct it stands.
pub data Progress : Type 0 where
  outside escaped opened : List Term → Progress
  ranges low_escaped : Bool → List (ℕ × ℕ) → List Term → Progress
  low high high_escaped : ℕ → Bool → List (ℕ × ℕ) → List Term → Progress
  bad : Progress

abbrev scan_outside : List Term → ℕ → Progress
scan_outside ts c =
    if c == b'*'
    then outside (star ∷ ts)
    else if c == b'?'
    then outside (test any_but_slash ∷ ts)
    else if c == b'['
    then opened ts
    else if c == 92
    then escaped ts
    else outside (test (one c) ∷ ts)

-- The start of a range.
abbrev scan_low : Bool → List (ℕ × ℕ) → List Term → ℕ → Progress
scan_low negated rs ts c =
    if c == b'-' || c == b']'
    then bad
    else if c == 92
    then low_escaped negated rs ts
    else low c negated rs ts

-- The end of the class, or another range.
abbrev scan_ranges : Bool → List (ℕ × ℕ) → List Term → ℕ → Progress
scan_ranges negated [] ts c = scan_low negated [] ts c
scan_ranges negated (r ∷ rs) ts c =
    if c == b']'
    then outside (test (class negated (r ∷ rs)) ∷ ts)
    else scan_low negated (r ∷ rs) ts c

abbrev pub scan : Progress → ℕ → Progress
scan (outside ts) c = scan_outside ts c
scan (escaped ts) c = outside (test (one c) ∷ ts)
scan (opened ts) c = if c == b'^' then ranges true [] ts else scan_low false [] ts c
scan (ranges negated rs ts) c = scan_ranges negated rs ts c
scan (low_escaped negated rs ts) c = low c negated rs ts
scan (low lo negated rs ts) c =
    if c == b'-' then high lo negated rs ts else scan_ranges negated ((lo, lo) ∷ rs) ts c
scan (high lo negated rs ts) c =
    if c == b'-' || c == b']'
    then bad
    else if c == 92
    then high_escaped lo negated rs ts
    else ranges negated ((lo, c) ∷ rs) ts
scan (high_escaped lo negated rs ts) c = ranges negated ((lo, c) ∷ rs) ts
scan bad c = bad

unfoldable pub scan_all : Progress → List ℕ → Progress
scan_all st [] = st
scan_all st (c ∷ cs) = scan_all (scan st c) cs

-- `none` is `ErrBadPattern`.
abbrev pub scanned : Progress → Option (List Term)
scanned (outside ts) = some (reverse ts)
scanned _ = none

abbrev pub accepts : Test → ℕ → Bool
accepts (one d) c = c == d
accepts any_but_slash c = not (c == b'/')
accepts (class negated rs) c =
    let inside = any (λ r. leb r.0 c && leb c r.1) rs in if negated then not inside else inside

-- A chunk, and whether a star stands before it.
abbrev pub Chunk : Type 0
Chunk = Bool × List Test

abbrev starred : List Test → List Chunk → List Chunk
starred [] [] = (true, []) ∷ []
starred [] (c ∷ cs) = c ∷ cs
starred (t ∷ ts) cs = (true, t ∷ ts) ∷ cs

unfoldable pub cut : List Term → List Test × List Chunk
cut [] = ([], [])
cut (test t ∷ ts) = let (head, chunks) = cut ts in (t ∷ head, chunks)
cut (star ∷ ts) = let (head, chunks) = cut ts in ([], starred head chunks)

abbrev pub leading : List Test × List Chunk → List Chunk
leading ([], chunks) = chunks
leading (t ∷ ts, chunks) = (false, t ∷ ts) ∷ chunks

-- `matchChunk`: what is left of the name.
unfoldable pub match_chunk : List Test → List ℕ → Option (List ℕ)
match_chunk [] s = some s
match_chunk (t ∷ ts) [] = none
match_chunk (t ∷ ts) (c ∷ s) = let rest = match_chunk ts s in if accepts t c then rest else none

-- The last chunk has to use the name up.
abbrev pub usable : Bool → Option (List ℕ) → Option (List ℕ)
usable last none = none
usable last (some []) = some []
usable last (some (c ∷ t)) = if last then none else some (c ∷ t)

abbrev pub first_of : Option (List ℕ) → Option (List ℕ) → Option (List ℕ)
first_of none later = later
first_of (some t) later = some t

-- The loop behind a star, which cannot skip a slash.
unfoldable pub seek : List Test → Bool → List ℕ → Option (List ℕ)
unfolding match_chunk
seek ts last [] = usable last (match_chunk ts [])
seek ts last (c ∷ s) =
    let later = seek ts last s in
    first_of (usable last (match_chunk ts (c ∷ s))) (if c == b'/' then none else later)

abbrev pub is_nil {ℓ} : {A : Type ℓ} → List A → Bool
is_nil [] = true
is_nil (x ∷ xs) = false

abbrev pub no_slash : List ℕ → Bool
no_slash s = not (any (λ c. c == b'/') s)

unfoldable pub match_chunks : List Chunk → List ℕ → Bool
unfolding match_chunk seek
match_chunks [] s = is_nil s
match_chunks ((true, []) ∷ more) s = no_slash s
match_chunks ((true, t ∷ ts) ∷ more) s = elim (seek (t ∷ ts) (is_nil more) s) [
  | none ↦ false
  | some rest ↦ match_chunks more rest
]
match_chunks ((false, ts) ∷ more) s = elim (usable (is_nil more) (match_chunk ts s)) [
  | none ↦ false
  | some rest ↦ match_chunks more rest
]

abbrev pub match_terms : List ℕ → Option (List Term) → Option Bool
match_terms name none = none
match_terms name (some ts) = some (match_chunks (leading (cut ts)) name)

-- `path.Match(pattern, name)`; `none` is an error.
unfoldable pub path_match : List ℕ → List ℕ → Option Bool
unfolding scan_all cut match_chunks
path_match pattern name = match_terms name (scanned (scan_all (outside []) pattern))
