-- ===== src/Provider/Scope/Prefix.antt =====
-- A pattern of a literal prefix and a star.
use mutandae.Prelude.{
  ℕ, String, ◌≡◌, ◌↔◌, refl, sym, ◌∙◌, ap, arith, Bool, true, false, ◌||◌, Option-cases, inl, inr,
  Option, none, some, List, [], ◌∷◌, ◌++◌, All, ◌==◌, nat_eq, codes, trim_space,
}
use mutandae.Provider.Scope.{scope_match, scope_pattern_match, matched}
use mathlib.Core.List.{reverse, reverse-append, append_assoc, append-nil}
use mutandae.Prelude.Glob.{
  Term, star, test, one, outside, scan, scan_all, scanned, Test, cut, leading, match_chunk,
  match_chunks, match_terms, path_match, no_slash, usable,
}

-- No character of a pattern's syntax.
abbrev pub IsPlain : List ℕ → Type 0
IsPlain = All (λ c. ((c == b'*' || c == b'?') || (c == b'[' || c == 92)) ≡ false)

abbrev ones : List ℕ → List Test
ones [] = []
ones (c ∷ cs) = one c ∷ ones cs

abbrev onto : List ℕ → List Term → List Term
onto [] ts = ts
onto (c ∷ cs) ts = onto cs (test (one c) ∷ ts)

scan-plain :
    (p rest : List ℕ) (ts : List Term)
    → IsPlain p
    → scan_all (outside ts) (p ++ rest) ≡ scan_all (outside (onto p ts)) rest
unfolding scan_all
scan-plain [] rest ts h = refl
scan-plain (c ∷ p) rest ts (plain, h) =
    ap (λ st. scan_all st (p ++ rest)) scan-one ∙ scan-plain p rest (test (one c) ∷ ts) h
  where
    scan-one : scan (outside ts) c ≡ outside (test (one c) ∷ ts)
    scan-one = ground arith

abbrev tests : List ℕ → List Term
tests [] = []
tests (c ∷ cs) = test (one c) ∷ tests cs

reverse-onto : (p : List ℕ) (ts : List Term) → reverse (onto p ts) ≡ reverse ts ++ tests p
reverse-onto [] ts = sym (append-nil (reverse ts))
reverse-onto (c ∷ p) ts =
    reverse-onto p (test (one c) ∷ ts)
    ∙ ap (λ r. r ++ tests p) (reverse-append (test (one c) ∷ []) ts)
    ∙ append_assoc (reverse ts) (test (one c) ∷ []) (tests p)

scanned-prefix :
    (p : List ℕ)
    → IsPlain p
    → scanned (scan_all (outside []) (p ++ b'*' ∷ [])) ≡ some (tests p ++ star ∷ [])
unfolding scan_all
scanned-prefix p plain =
    ap scanned (scan-plain p (b'*' ∷ []) [] plain)
    ∙ ap some
        (reverse-append (star ∷ []) (onto p []) ∙ ap (λ r. r ++ star ∷ []) (reverse-onto p []))

cut-tests : (p : List ℕ) → cut (tests p ++ star ∷ []) ≡ (ones p, (true, []) ∷ [])
unfolding cut
cut-tests [] = refl
cut-tests (c ∷ p) = rw (cut-tests p) refl

-- A prefix matches, and leaves the rest.
match_chunk-ones : (p s : List ℕ) → match_chunk (ones p) (p ++ s) ≡ some s
unfolding match_chunk
match_chunk-ones [] s = refl
match_chunk-ones (c ∷ p) s = ground (arith, match_chunk-ones p s)

match_chunk_inv : (p name s : List ℕ) → match_chunk (ones p) name ≡ some s → name ≡ p ++ s
unfolding match_chunk
match_chunk_inv [] name s h = ground arith
match_chunk_inv (c ∷ p) [] s h = absurd (ground arith)
match_chunk_inv (c ∷ p) (d ∷ name) s h = ground (arith, match_chunk_inv p name s)

abbrev BehindPrefix : List ℕ → List ℕ → Type 0
BehindPrefix p name = (rest : List ℕ) × (name ≡ p ++ rest) × (no_slash rest ≡ true)

not_last : (o : Option (List ℕ)) → usable false o ≡ o
not_last none = refl
not_last (some []) = refl
not_last (some (c ∷ t)) = refl

prefix_then_star :
    (ts : List Test) (name : List ℕ)
    → match_chunks ((false, ts) ∷ (true, []) ∷ []) name
      ≡ (elim (match_chunk ts name) [ none ↦ false | some rest ↦ no_slash rest ])
unfolding match_chunks
prefix_then_star ts name = rw (not_last (match_chunk ts name), match_chunks) refl

match_of-BehindPrefix :
    (p name : List ℕ)
    → BehindPrefix p name
    → match_chunks (leading (ones p, (true, []) ∷ [])) name ≡ true
unfolding match_chunks
match_of-BehindPrefix [] name (rest, same, h) = rw same h
match_of-BehindPrefix (c ∷ p) name (rest, same, h) =
    rw same (prefix_then_star (ones (c ∷ p)) (c ∷ p ++ rest) ∙ rw (match_chunk-ones (c ∷ p) rest) h)

BehindPrefix-of_match :
    (p name : List ℕ)
    → match_chunks (leading (ones p, (true, []) ∷ [])) name ≡ true
    → BehindPrefix p name
unfolding match_chunks
BehindPrefix-of_match [] name h = (name, refl, h)
BehindPrefix-of_match (c ∷ p) name h = elim (Option-cases (match_chunk (ones (c ∷ p)) name)) [
  | inl e ↦
      let stuck = rw e at (sym (prefix_then_star (ones (c ∷ p)) name) ∙ h) in absurd (ground arith)
  | inr (rest, e) ↦
      let tail = rw e at (sym (prefix_then_star (ones (c ∷ p)) name) ∙ h) in
      (rest, match_chunk_inv (c ∷ p) name rest e, tail)
]

pub path_match-prefix :
    (p name : List ℕ)
    → IsPlain p
    → (path_match (p ++ b'*' ∷ []) name ≡ some true)
      ↔ ((rest : List ℕ) × (name ≡ p ++ rest) × (no_slash rest ≡ true))
unfolding path_match
path_match-prefix p name plain = (
  λ h. BehindPrefix-of_match p name (ground (arith, told)),
  λ b. told ∙ ap some (match_of-BehindPrefix p name b),
)
  where
    told :
        path_match (p ++ b'*' ∷ []) name
        ≡ some (match_chunks (leading (ones p, (true, []) ∷ [])) name)
    told =
        ap (match_terms name) (scanned-prefix p plain)
        ∙ ap (λ c. some (match_chunks (leading c) name)) (cut-tests p)

matched_of-scope :
    (pattern name : String)
    → scope_match (record { allow = pattern ∷ []; deny = [] }) name
      ≡ scope_pattern_match pattern name
unfolding scope_match
matched_of-scope pattern name = ground arith

-- For a scope of one allow pattern that is, when trimmed, a text without pattern characters and a
-- star, a name matches exactly if it is that text followed by a rest without a slash.
pub scope_match-prefix :
    (pattern name : String) (p : List ℕ)
    → codes (trim_space pattern) ≡ p ++ b'*' ∷ []
    → IsPlain p
    → (scope_match (record { allow = pattern ∷ []; deny = [] }) name ≡ true)
      ↔ ((rest : List ℕ) × (codes name ≡ p ++ rest) × (no_slash rest ≡ true))
unfolding scope_pattern_match
scope_match-prefix pattern name p spelled plain =
    let glob = path_match-prefix p (codes name) plain in
    let same =
      matched_of-scope pattern name ∙ ap (λ c. matched (path_match c (codes name))) spelled in
    (
      λ h. glob.0 (matched_inv (path_match (p ++ b'*' ∷ []) (codes name)) (sym same ∙ h)),
      λ b. same ∙ ap matched (glob.1 b),
    )
  where
    matched_inv : (o : Option Bool) → matched o ≡ true → o ≡ some true
    matched_inv none h = absurd (ground arith)
    matched_inv (some b) h = ap some h
