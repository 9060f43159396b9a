-- ===== src/Provider/Scope/Names.antt =====
-- `buildScopedName` of internal/provider/scope.go and `buildDemoName` of create.go.
use mutandae.Prelude.{
  ℕ, zero, suc, ◌+◌, ◌/◌, String, ◌≡◌, arith, Bool, true, Bool-cases, inl, inr, ◌&&◌, ◌||◌, Option,
  none, some, List, [], ◌∷◌, leb, ◌==◌, string_eq, nat_eq, if◌then◌else◌, ◌<>◌, trim_space, lower,
  first, hex,
}
use mutandae.Protocol.Errors.{Error, Result, ok, err, plain}
use mutandae.Protocol.Validation.{quote}
use mutandae.Lifecycle.Env.{Call}
use mutandae.Provider.Scope.{Scope, demo_prefix, scope_match}
use Prim.Native.Char.{Char, code}

-- The random source: as many bytes as are asked for.
abbrev pub RandomBytes : Type 0 → Type 0
RandomBytes W = ℕ → Call W (List ℕ)

-- The pattern up to its first `*`, `?` or `[`.
literal_part : String → String
literal_part String.[] = ""
literal_part (String.◌∷◌ c s) =
    let rest = literal_part s in
    if code c == b'*' || (code c == b'?' || code c == b'[') then "" else String.◌∷◌ c rest

-- The prefix holds no `*`, so that there is none to trim from its end.
unfoldable pub scoped_prefix : String → String
unfolding literal_part
scoped_prefix pattern =
    let prefix = trim_space (literal_part (trim_space pattern)) in
    if prefix == "" then demo_prefix else prefix

hint_char : Char → Bool
hint_char c =
    let n = code c in (leb b'a' n && leb n b'z') || ((leb b'0' n && leb n b'9') || n == b'-')

all_hint_chars : String → Bool
unfolding hint_char
all_hint_chars String.[] = true
all_hint_chars (String.◌∷◌ c s) = hint_char c && all_hint_chars s

-- The hint that a name is built with, cut to twenty characters; `none` is refused.
unfoldable pub base_hint : String → Option String
unfolding all_hint_chars
base_hint hint =
    let h = lower (trim_space hint) in if all_hint_chars h then some (first 20 h) else none

abbrev dashed : String → String
dashed h = if h == "" then "" else h <> "-"

abbrev half_up : ℕ → ℕ
half_up n = (n + 1) / 2

module _ {W : Type 0} (random : RandomBytes W) where
  module _ (scope : Scope) (stem : String) (size : ℕ) where
    try_name : Call W String → Result (List ℕ) → Call W String
    try_name retry (err e) w = (err e, w)
    try_name retry (ok raw) w =
        let candidate = stem <> first size (hex raw) in
        if scope_match scope candidate then (ok candidate, w) else retry w

    -- The loop, by the attempts that are left.
    attempt_name : ℕ → Error → Call W String
    unfolding try_name
    attempt_name zero spent w = (err spent, w)
    attempt_name (suc left) spent w =
        let (r, w') = random (half_up size) w in try_name (attempt_name left spent) r w'

  scoped_from : Scope → String → ℕ → Option String → Call W String
  unfolding attempt_name
  scoped_from scope pattern size none w =
      (err (plain "identity hint may only contain a-z, 0-9 and '-'"), w)
  scoped_from scope pattern size (some hint) w =
      attempt_name scope (scoped_prefix pattern <> dashed hint) size 8
        (plain (
          "could not generate an identity inside provider scope pattern "
          <> quote (trim_space pattern)))
        w

  scoped_by : Scope → List String → String → ℕ → Call W String
  unfolding scoped_from base_hint
  scoped_by scope [] hint size w =
      (err (plain "provider scope has no allow pattern for provisioning"), w)
  scoped_by scope (pattern ∷ allow) hint size w = scoped_from scope pattern size (base_hint hint) w

  unfoldable pub build_scoped_name : Scope → String → ℕ → Call W String
  unfolding scoped_by
  build_scoped_name scope hint size w = scoped_by scope scope.allow hint size w

  demo_suffix : String → ℕ → Result (List ℕ) × W → Result String × W
  demo_suffix hint size (err e, w) = (err e, w)
  demo_suffix hint size (ok raw, w) = (ok (demo_prefix <> dashed hint <> first size (hex raw)), w)

  demo_from : ℕ → Option String → Call W String
  unfolding demo_suffix
  demo_from size none w = (err (plain "demo identity hint may only contain a-z, 0-9 and '-'"), w)
  demo_from size (some hint) w = demo_suffix hint size (random (half_up size) w)

  unfoldable pub build_demo_name : String → ℕ → Call W String
  unfolding demo_from base_hint
  build_demo_name hint size w = demo_from size (base_hint hint) w

  module _ (scope : Scope) (stem : String) (size : ℕ) where
    try_name-matches :
        (retry : Call W String) (r : Result (List ℕ)) (w : W) (name : String)
        → ((w' : W) → (retry w').0 ≡ ok name → scope_match scope name ≡ true)
        → (try_name scope stem size retry r w).0 ≡ ok name
        → scope_match scope name ≡ true
    unfolding try_name
    try_name-matches retry (err e) w name later h = absurd (ground arith)
    try_name-matches retry (ok raw) w name later h =
        elim (Bool-cases (scope_match scope (stem <> first size (hex raw)))) [
          | inl e ↦ let same : stem <> first size (hex raw) ≡ name = ground arith in rw (← same) e
          | inr e ↦ later w (ground arith)
        ]

    attempt_name-matches :
        (left : ℕ) (spent : Error) (w : W) (name : String)
        → (attempt_name scope stem size left spent w).0 ≡ ok name
        → scope_match scope name ≡ true
    unfolding attempt_name
    attempt_name-matches zero spent w name h = absurd (ground arith)
    attempt_name-matches (suc left) spent w name h =
        let called = random (half_up size) w in
        try_name-matches (attempt_name scope stem size left spent) called.0 called.1 name
          (λ w'. attempt_name-matches left spent w' name) h

  scoped_from-matches :
      (scope : Scope) (pattern : String) (size : ℕ) (hint : Option String) (w : W) (name : String)
      → (scoped_from scope pattern size hint w).0 ≡ ok name
      → scope_match scope name ≡ true
  unfolding scoped_from
  scoped_from-matches scope pattern size none w name h = absurd (ground arith)
  scoped_from-matches scope pattern size (some hint) w name h =
      attempt_name-matches scope (scoped_prefix pattern <> dashed hint) size 8 _ w name h

  scoped_by-matches :
      (scope : Scope) (allow : List String) (hint : String) (size : ℕ) (w : W) (name : String)
      → (scoped_by scope allow hint size w).0 ≡ ok name
      → scope_match scope name ≡ true
  unfolding scoped_by
  scoped_by-matches scope [] hint size w name h = absurd (ground arith)
  scoped_by-matches scope (pattern ∷ allow) hint size w name h =
      scoped_from-matches scope pattern size (base_hint hint) w name h

  -- A name that is built for a scope matches that scope, whatever the random source yields.
  pub build_scoped_name_lem :
      (scope : Scope) (hint : String) (size : ℕ) (w : W) (name : String)
      → (build_scoped_name scope hint size w).0 ≡ ok name
      → scope_match scope name ≡ true
  unfolding build_scoped_name
  build_scoped_name_lem scope hint size w name h =
      scoped_by-matches scope scope.allow hint size w name h
