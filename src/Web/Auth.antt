-- ===== src/Web/Auth.antt =====
-- Roles, requests and sessions of internal/web/auth.go, as far as the guard in front of the handlers
-- reads them. A request's context is the last three fields of its record.
pub mod Tokens
pub mod Claims
pub mod Entries
pub mod Callers
pub mod Gate
pub mod Identities
pub mod Passed
use mutandae.Prelude.{
  String, Bool, true, false, not, ◌&&◌, ◌||◌, Option, none, some, List, [], ◌∷◌, Dict, lookup,
  insert, delete, ltb, ◌==◌, string_eq, if◌then◌else◌, trim_space, lower,
}
use mutandae.Protocol.{Time}
use mutandae.Protocol.Errors.{Error, Result, ok, err, plain}

abbrev pub role_admin : String
role_admin = "admin"

abbrev pub role_operator : String
role_operator = "operator"

abbrev pub role_viewer : String
role_viewer = "viewer"

abbrev pub known_role : String → Bool
known_role r = r == role_admin || r == role_operator || r == role_viewer

unfoldable pub valid_role : String → Bool
valid_role role = known_role (lower (trim_space role))

unfoldable pub normalize_role : String → String
normalize_role role = let r = lower (trim_space role) in if valid_role r then r else ""

-- `authMode`
abbrev pub auth_mode : String → String
auth_mode mode = let m = lower (trim_space mode) in if m == "" then "none" else m

-- The methods that the code names.
pub data Method : Type 0 where
  get_method head_method post_method put_method patch_method delete_method : Method
  other_method : String → Method

pub record AuthIdentity : Type 0 where
  pub principal : String
  pub subject : String
  pub email : String
  pub name : String
  pub role : String

-- A cookie is looked up by its name, the first one of it; a header that is missing is empty.
pub record HttpRequest : Type 0 where
  pub method : Method
  pub path : String
  pub authorization : String
  pub csrf_header : String
  pub cookies : List (String × String)
  pub cancelled : Option Error
  pub identity : Option AuthIdentity
  pub bearer : Bool

abbrev pub identity_role : Option AuthIdentity → String
identity_role none = ""
identity_role (some identity) = identity.role

-- `RoleFromContext`
abbrev pub role_of_context : HttpRequest → String
role_of_context r = identity_role r.identity

unfoldable pub is_mutation : Method → Bool
is_mutation post_method = true
is_mutation put_method = true
is_mutation patch_method = true
is_mutation delete_method = true
is_mutation _ = false

-- The paths that create identities.
abbrev pub creates : String → Bool
creates path = path == "/identities/provision" || path == "/api/v1/demo/identities"

abbrev pub posted : Bool → String
posted true = role_admin
posted false = role_operator

unfoldable pub role_for : Method → String → String
role_for get_method path = role_viewer
role_for head_method path = role_viewer
role_for delete_method path = role_admin
role_for post_method path = posted (creates path)
role_for put_method path = posted (creates path)
role_for patch_method path = posted (creates path)
role_for (other_method _) path = role_operator

unfoldable pub required_role : HttpRequest → String
unfolding role_for
required_role r = role_for r.method r.path

unfoldable pub role_allows : String → String → Bool
role_allows actual required =
    if required == role_viewer
    then valid_role actual
    else if required == role_operator
    then actual == role_operator || actual == role_admin
    else if required == role_admin
    then actual == role_admin
    else false

pub record Session : Type 0 where
  pub principal : String
  pub subject : String
  pub email : String
  pub name : String
  pub role : String
  pub expires_at : Time

abbrev pub SessionStore : Type 0
SessionStore = Dict Session

unfoldable pub found_session :
    String → Time → SessionStore → Option Session → Option Session × SessionStore
found_session id now st none = (none, st)
found_session id now st (some s) =
    if not (ltb now s.expires_at) then (none, delete id st) else (some s, st)

-- `MemorySessionStore.Get`, with the error of a context that is done.
unfoldable pub get_session :
    Option Error → String → Time → SessionStore → Result (Option Session) × SessionStore
unfolding found_session
get_session (some e) id now st = (err e, st)
get_session none id now st = let r = found_session id now st (lookup id st) in (ok r.0, r.1)

-- `MemorySessionStore.Put`; the zero time is 0.
unfoldable pub put_session :
    Option Error → String → Session → SessionStore → Result (Unit {0}) × SessionStore
put_session (some e) id s st = (err e, st)
put_session none id s st =
    if id == "" || s.role == "" || not (ltb 0 s.expires_at)
    then (err (plain "session id, role, and expiry are required"), st)
    else (ok tt, insert id s st)

-- `MemorySessionStore.Delete`
unfoldable pub delete_session :
    Option Error → String → SessionStore → Result (Unit {0}) × SessionStore
delete_session (some e) id st = (err e, st)
delete_session none id st = (ok tt, delete id st)
