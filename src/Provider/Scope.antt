-- ===== src/Provider/Scope.antt =====
-- The scopes of internal/provider/scope.go and the names of internal/provider/create.go.
pub mod Names
pub mod Prefix
use mutandae.Prelude.{
  ℕ, zero, suc, ◌+◌, ◌/◌, String, Bool, true, false, not, ◌&&◌, ◌||◌, Option, none, some, List, [],
  ◌∷◌, ◌++◌, any, leb, ◌==◌, string_eq, nat_eq, if◌then◌else◌, ◌<>◌, trim_space, lower, codes,
  first, hex,
}
use mutandae.Prelude.Glob.{path_match}
use mutandae.Protocol.Errors.{Error, Result, ok, err, plain, wrap, join, forbidden, ◌>>=◌, ◌>>◌}
use mutandae.Protocol.Validation.{quote}
use Prim.Native.Char.{Char, code}

pub record Scope : Type 0 where
  pub allow : List String
  pub deny : List String

abbrev pub demo_scope_pattern : String
demo_scope_pattern = "mutandae-demo-*"

abbrev pub demo_prefix : String
demo_prefix = "mutandae-demo-"

-- `DemoScope`
abbrev pub demo_scope : Scope
demo_scope = record { allow = demo_scope_pattern ∷ []; deny = [] }

-- `err == nil && matched`
abbrev matched : Option Bool → Bool
matched none = false
matched (some b) = b

unfoldable pub scope_pattern_match : String → String → Bool
unfolding path_match
scope_pattern_match pattern name = matched (path_match (codes (trim_space pattern)) (codes name))

abbrev pub is_empty : List String → Bool
is_empty [] = true
is_empty (p ∷ ps) = false

-- `Scope.Match`
unfoldable pub scope_match : Scope → String → Bool
unfolding scope_pattern_match
scope_match scope name =
    if any (λ p. scope_pattern_match p name) scope.deny
    then false
    else if is_empty scope.allow
    then true
    else any (λ p. scope_pattern_match p name) scope.allow

check_pattern : String → Option Bool → Result (Unit {0})
check_pattern pattern none =
    err (plain ("provider scope pattern " <> quote pattern <> ": syntax error in pattern"))
check_pattern pattern (some b) = ok tt

unfoldable pub validate_patterns : List String → Result (Unit {0})
unfolding check_pattern
validate_patterns [] = ok tt
validate_patterns (p ∷ ps) =
    let rest = validate_patterns ps in
    let pattern = trim_space p in
    if pattern == ""
    then err (plain "provider scope pattern is empty")
    else check_pattern pattern (path_match (codes pattern) []) >> rest

-- `Scope.Validate`
unfoldable pub validate_scope : Scope → Result (Unit {0})
unfolding validate_patterns
validate_scope scope = validate_patterns (scope.allow ++ scope.deny)

abbrev grown : Char → List String → List String
grown c [] = String.◌∷◌ c "" ∷ []
grown c (w ∷ ws) = String.◌∷◌ c w ∷ ws

-- `strings.Split(value, ",")`
split_commas : String → List String
split_commas String.[] = "" ∷ []
split_commas (String.◌∷◌ c s) =
    let rest = split_commas s in if code c == b',' then "" ∷ rest else grown c rest

-- The text behind a leading `!`.
abbrev denied : String → Option String
denied String.[] = none
denied (String.◌∷◌ c s) = if code c == b'!' then some s else none

abbrev with_allow : String → Scope → Scope
with_allow item scope = record scope { allow = scope.allow ++ item ∷ [] }

abbrev with_deny : String → Scope → Scope
with_deny item scope = record scope { deny = scope.deny ++ item ∷ [] }

add_item : String → Option String → Scope → Result Scope
add_item item none scope = ok (with_allow item scope)
add_item item (some rest) scope =
    if trim_space rest == ""
    then err (plain "provider scope deny pattern is empty")
    else ok (with_deny (trim_space rest) scope)

-- The loop of `ParseScope`.
parse_items : List String → Scope → Result Scope
unfolding add_item
parse_items [] scope = ok scope
parse_items (i ∷ is) scope =
    let item = trim_space i in
    (if item == "" then ok scope else add_item item (denied item) scope) >>= parse_items is

checked : Scope → Result Scope
checked scope =
    if is_empty scope.allow && is_empty scope.deny
    then err (plain "provider scope must contain at least one pattern")
    else validate_scope scope >> ok scope

unfoldable pub parse_scope : String → Result Scope
unfolding split_commas parse_items checked validate_scope
parse_scope value = parse_items (split_commas value) (record { allow = []; deny = [] }) >>= checked

-- The error of an operation outside of the scope.
unfoldable pub forbidden_scope_error : String → String → Scope → Error
forbidden_scope_error kind name scope =
    let listed = join ", " scope.allow in
    let patterns = if listed == "" then "<none>" else listed in
    wrap forbidden (
      kind
      <> " identity "
      <> quote name
      <> " is outside the configured provider scope (allow: "
      <> patterns
      <> ")")

unfoldable pub validate_real_scope : Scope → Bool → Result Scope
unfolding validate_scope
validate_real_scope scope legacy_demo_only =
    let scope' =
      if legacy_demo_only && is_empty scope.allow
      then record scope { allow = demo_scope_pattern ∷ [] }
      else scope in
    validate_scope scope'
    >> (if not (is_empty scope'.allow)
        then ok scope'
        else if is_empty scope'.deny
        then ok (record { allow = "*" ∷ []; deny = [] })
        else err (plain "real provider adapter requires a non-empty scope allow list"))

unfoldable pub simulator_scope : Scope → Result Scope
unfolding validate_scope
simulator_scope scope =
    let scope' = if is_empty scope.allow && is_empty scope.deny then demo_scope else scope in
    validate_scope scope' >> ok scope'

unfoldable pub is_demo_scope : Scope → Bool
is_demo_scope scope = any (λ p. trim_space p == demo_scope_pattern) scope.allow

-- A constructor's optional scopes.
unfoldable pub simulator_constructor_scope : List Scope → Scope
simulator_constructor_scope [] = record { allow = "*" ∷ []; deny = [] }
simulator_constructor_scope (scope ∷ scopes) =
    if is_empty scope.allow && is_empty scope.deny then demo_scope else scope
