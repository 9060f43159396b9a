-- ===== src/Web/Auth/Gate.antt =====
-- The guard in front of the handlers, internal/web/auth.go, with the CSRF check of server.go. The new
-- CSRF value is a parameter; the outcome is the request that is handed on, or the answer, next to the
-- CSRF cookie that the answer sets.
use mutandae.Prelude.{
  String, Bool, true, false, not, ◌&&◌, ◌||◌, Option, none, some, [], ◌∷◌, ◌++◌, lookup, ◌==◌,
  string_eq, nat_eq, if◌then◌else◌, codes, has_prefix,
}
use mutandae.Protocol.{Time}
use mutandae.Protocol.Errors.{Result, ok, err, bare, integration_csrf}
use mutandae.Lifecycle.Integration.Guarding.{secure_equal}
use mutandae.Web.Auth.{
  AuthIdentity, HttpRequest, get_method, SessionStore, is_mutation, required_role, role_allows,
  role_of_context,
}
use mutandae.Web.Auth.Callers.{Authenticator, bearer_identity, cookie_value, session_identity}

-- `csrfCookie`
abbrev pub csrf_cookie : HttpRequest → String
csrf_cookie r = cookie_value (lookup "mutandae_csrf" r.cookies)

-- `secureStringEqual`, which has the text of the lifecycle's `secureEqual`.
abbrev pub secure_string_equal : String → String → Bool
secure_string_equal a b = secure_equal a b

-- `validateCSRF` where it asks for the header.
unfoldable pub validate_csrf : HttpRequest → Result (Unit {0})
validate_csrf r =
    if r.bearer
    then ok tt
    else if csrf_cookie r == ""
    then err (bare integration_csrf)
    else if not (secure_string_equal (csrf_cookie r) r.csrf_header)
    then err (bare integration_csrf)
    else ok tt

pub data Verdict : Type 0 where
  handed_on : HttpRequest → Verdict
  unauthorized to_login : Verdict
  refused : String → Verdict

-- The request with a CSRF cookie, and the cookie that the answer sets for it.
abbrev pub add_csrf_cookie : Bool → String → HttpRequest → HttpRequest × Option String
add_csrf_cookie true fresh r =
    (record r { cookies = r.cookies ++ ("mutandae_csrf", fresh) ∷ [] }, some fresh)
add_csrf_cookie false fresh r = (r, none)

abbrev pub ensure_csrf_cookie : String → HttpRequest → HttpRequest × Option String
ensure_csrf_cookie fresh r = add_csrf_cookie (csrf_cookie r == "") fresh r

abbrev pub with_role : HttpRequest → Verdict
with_role r =
    if not (required_role r == "") && not (role_allows (role_of_context r) (required_role r))
    then refused "insufficient role"
    else handed_on r

abbrev pub csrf_checked : HttpRequest → Result (Unit {0}) → Verdict
csrf_checked r (err e) = refused "csrf validation failed"
csrf_checked r (ok _) = with_role r

unfoldable pub authorize : String → HttpRequest → Verdict × Option String
authorize fresh r =
    if r.bearer
    then (with_role r, none)
    else let e = ensure_csrf_cookie fresh r in
      if is_mutation e.0.method
      then (csrf_checked e.0 (validate_csrf e.0), e.1)
      else (with_role e.0, e.1)

unfoldable pub public_request : HttpRequest → Bool
public_request r = elim r.method [
  | get_method ↦
      r.path == "/livez"
      || r.path == "/readyz"
      || r.path == "/metrics"
      || has_prefix (codes r.path) (codes "/static/")
      || r.path == "/favicon.ico"
      || r.path == "/favicon.svg"
  | _ ↦ false
]

unfoldable pub auth_route : Authenticator → HttpRequest → Bool
auth_route a r =
    a.mode == "oidc"
    && (r.path == "/auth/login" || r.path == "/auth/callback" || r.path == "/auth/logout")

unfoldable pub is_api_request : HttpRequest → Bool
is_api_request r = has_prefix (codes r.path) (codes "/api/")

abbrev pub by_bearer : String → HttpRequest → Option AuthIdentity → Verdict × Option String
by_bearer fresh r none = (unauthorized, none)
by_bearer fresh r (some identity) =
    authorize fresh (record r { identity = some identity; bearer = true })

abbrev pub by_session : String → HttpRequest → Option AuthIdentity → Verdict × Option String
by_session fresh r none = (if is_api_request r then unauthorized else to_login, none)
by_session fresh r (some identity) = authorize fresh (record r { identity = some identity })

-- `ServeHTTP`
unfoldable pub serve_http :
    Authenticator
    → String
    → HttpRequest
    → Time
    → SessionStore
    → (Verdict × Option String) × SessionStore
unfolding public_request auth_route
serve_http a fresh r now st =
    if public_request r || auth_route a r
    then ((handed_on r, none), st)
    else if not (r.authorization == "")
    then (by_bearer fresh r (bearer_identity a r.authorization), st)
    else if a.mode == "token"
    then ((unauthorized, none), st)
    else let s = session_identity a r now st in (by_session fresh r s.0, s.1)
