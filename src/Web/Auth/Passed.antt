-- ===== src/Web/Auth/Passed.antt =====
-- What the guard hands on.
use mutandae.Prelude.{
  String, ◌≡◌, ◌≢◌, refl, inl, inr, true, Bool, false, ◌||◌, Bool-cases, Option, none, some, ◌==◌,
  string_eq, eq_iff,
}
use mutandae.Protocol.{Time}
use mutandae.Protocol.Errors.{Result, ok, err}
use mutandae.Lifecycle.Integration.Guarding.{secure_equal}
use mutandae.Web.Auth.{
  AuthIdentity, HttpRequest, SessionStore, Method, get_method, head_method, post_method, put_method,
  patch_method, delete_method, other_method, is_mutation, creates, posted, role_for, required_role,
  role_allows,
}
use mutandae.Web.Auth.Gate.{
  csrf_cookie, validate_csrf, handed_on, with_role, csrf_checked, add_csrf_cookie,
  ensure_csrf_cookie, authorize, public_request, auth_route, is_api_request, by_bearer, by_session,
  serve_http,
}
use mutandae.Web.Auth.Callers.{Authenticator, bearer_identity, fields, session_identity}
use mutandae.Web.Auth.Identities.{Bearing, Sitting, bearer_words_lem, session_identity_lem}

-- A request that changes something has a header that the guard takes for the CSRF cookie's value.
pub data Unforged (method : Method) (header : String) (r' : HttpRequest) : Type 0 where
  reading : is_mutation method ≡ false → Unforged method header r'
  showing :
      csrf_cookie r' ≢ "" → secure_equal (csrf_cookie r') header ≡ true → Unforged method header r'

posted_named : (b : Bool) → (posted b == "") ≡ false
posted_named true = refl
posted_named false = refl

role_for_named : (m : Method) (path : String) → (role_for m path == "") ≡ false
unfolding role_for
role_for_named get_method path = refl
role_for_named head_method path = refl
role_for_named delete_method path = refl
role_for_named post_method path = posted_named (creates path)
role_for_named put_method path = posted_named (creates path)
role_for_named patch_method path = posted_named (creates path)
role_for_named (other_method _) path = refl

with_role_lem :
    (r r' : HttpRequest) (identity : AuthIdentity)
    → r.identity ≡ some identity
    → with_role r ≡ handed_on r'
    → (r' ≡ r) × (role_allows identity.role (required_role r) ≡ true)
unfolding required_role
with_role_lem r r' identity i h = elim (Bool-cases (role_allows identity.role (required_role r))) [
  | inl allowed ↦ (cc (h, i, allowed, role_for_named r.method r.path), allowed)
  | inr denied ↦ cc (h, i, denied, role_for_named r.method r.path)
]

csrf_checked_lem :
    (r r' : HttpRequest) (result : Result (Unit {0}))
    → csrf_checked r result ≡ handed_on r'
    → (result ≡ ok tt) × (with_role r ≡ handed_on r')
csrf_checked_lem r r' (ok _) h = (refl, h)
csrf_checked_lem r r' (err e) h = cc

validate_csrf_lem :
    (r : HttpRequest)
    → r.bearer ≡ false
    → validate_csrf r ≡ ok tt
    → (csrf_cookie r ≢ "") × (secure_equal (csrf_cookie r) r.csrf_header ≡ true)
unfolding validate_csrf
validate_csrf_lem r b h = elim (Bool-cases (csrf_cookie r == "")) [
  | inl empty ↦ cc (h, b, empty)
  | inr full ↦ elim (Bool-cases (secure_equal (csrf_cookie r) r.csrf_header)) [
    | inl same ↦ ((λ p. cc (full, (eq_iff (csrf_cookie r) "").1 p)), same)
    | inr other ↦ cc (h, b, full, other)
  ]
]

-- The request to which the guard adds nothing but a CSRF cookie.
pub record Same (r e : HttpRequest) : Type 0 where
  method : e.method ≡ r.method
  path : e.path ≡ r.path
  header : e.csrf_header ≡ r.csrf_header
  identity : e.identity ≡ r.identity
  bearer : e.bearer ≡ r.bearer

add_csrf_cookie-Same :
    (b : Bool) (fresh : String) (r : HttpRequest) → Same r (add_csrf_cookie b fresh r).0
add_csrf_cookie-Same true fresh r = record {
  method = refl;
  path = refl;
  header = refl;
  identity = refl;
  bearer = refl;
}
add_csrf_cookie-Same false fresh r = record {
  method = refl;
  path = refl;
  header = refl;
  identity = refl;
  bearer = refl;
}

-- What `authorize` hands on has a role that suffices.
pub record Allowed (r r' : HttpRequest) (identity : AuthIdentity) : Type 0 where
  pub carried : r'.identity ≡ some identity
  pub role : role_allows identity.role (required_role r) ≡ true

authorize-bearer :
    (fresh : String) (r r' : HttpRequest) (identity : AuthIdentity)
    → r.bearer ≡ true
    → r.identity ≡ some identity
    → (authorize fresh r).0 ≡ handed_on r'
    → Allowed r r' identity
unfolding authorize
authorize-bearer fresh r r' identity b i h =
    let (e, allowed) = with_role_lem r r' identity i (cc (h, b)) in
    record { carried = cc (e, i); role = allowed }

authorize-session :
    (fresh : String) (r r' : HttpRequest) (identity : AuthIdentity)
    → r.bearer ≡ false
    → r.identity ≡ some identity
    → (authorize fresh r).0 ≡ handed_on r'
    → Allowed r r' identity × Unforged r.method r.csrf_header r'
unfolding authorize required_role
authorize-session fresh r r' identity b i h =
    let e = (ensure_csrf_cookie fresh r).0 in
    let same = add_csrf_cookie-Same (csrf_cookie r == "") fresh r in
    elim (Bool-cases (is_mutation e.method)) [
      | inl changes ↦
          let (valid, passed) = csrf_checked_lem e r' (validate_csrf e) (cc (h, b, changes)) in
          let (shown, agrees) = validate_csrf_lem e (cc (same.bearer, b)) valid in
          let (p, allowed) = with_role_lem e r' identity (cc (same.identity, i)) passed in
          (
            record {
              carried = cc (p, same.identity, i);
              role = cc (allowed, same.method, same.path);
            },
            showing (λ q. shown (cc (p, q))) (cc (agrees, p, same.header)),
          )
      | inr reads ↦
          let (p, allowed) =
            with_role_lem e r' identity (cc (same.identity, i)) (cc (h, b, reads)) in
          (
            record {
              carried = cc (p, same.identity, i);
              role = cc (allowed, same.method, same.path);
            },
            reading (cc (reads, same.method)),
          )
    ]

-- Where the identity of a request that is handed on comes from.
pub data Origin (a : Authenticator) (r : HttpRequest) (now : Time) (st : SessionStore)
    (r' : HttpRequest) (identity : AuthIdentity) : Type 0 where
  by_token : Bearing a r identity → Origin a r now st r' identity
  by_cookie :
      a.mode ≢ "token"
      → Sitting a r now st identity
      → Unforged r.method r.csrf_header r'
      → Origin a r now st r' identity

module _ (a : Authenticator) (fresh : String) (r : HttpRequest) (now : Time) (st : SessionStore)
    (r' : HttpRequest) where
  by_bearer_lem :
      (found : Option AuthIdentity)
      → bearer_identity a r.authorization ≡ found
      → (by_bearer fresh r found).0 ≡ handed_on r'
      → (identity : AuthIdentity) × Allowed r r' identity × Origin a r now st r' identity
  unfolding bearer_identity required_role
  by_bearer_lem none e h = cc
  by_bearer_lem (some identity) e h =
      let passed = record r { identity = some identity; bearer = true } in
      let allowed = authorize-bearer fresh passed r' identity refl refl h in
      (
        identity,
        record { carried = allowed.carried; role = allowed.role },
        by_token (bearer_words_lem a r identity (fields r.authorization) refl e),
      )

  by_session_lem :
      (found : Option AuthIdentity)
      → r.bearer ≡ false
      → a.mode ≢ "token"
      → (session_identity a r now st).0 ≡ found
      → (by_session fresh r found).0 ≡ handed_on r'
      → (identity : AuthIdentity) × Allowed r r' identity × Origin a r now st r' identity
  unfolding required_role
  by_session_lem none b m e h = elim (Bool-cases (is_api_request r)) [
    | inl api ↦ cc (h, api)
    | inr page ↦ cc (h, page)
  ]
  by_session_lem (some identity) b m e h =
      let passed = record r { identity = some identity } in
      let (allowed, unforged) = authorize-session fresh passed r' identity b refl h in
      (
        identity,
        record { carried = allowed.carried; role = allowed.role },
        by_cookie m (session_identity_lem a r now st identity e) unforged,
      )

  -- When the guard hands on a request that is not yet marked as one with a bearer token and is
  -- neither public nor for one of the login routes, the request carries an identity whose role
  -- allows what its method and path require; that identity has either the role of the first token
  -- entry with the digest of the request's bearer token, or, where the mode is not token, that of
  -- a stored session of the signed id in the cookie, which has a valid role and has not expired,
  -- and then a request that changes something has a header that secureStringEqual takes for the
  -- value of its CSRF cookie, which is not empty.
  pub serve_http_passed :
      r.bearer ≡ false
      → (public_request r || auth_route a r) ≡ false
      → (serve_http a fresh r now st).0.0 ≡ handed_on r'
      → (identity : AuthIdentity) × Allowed r r' identity × Origin a r now st r' identity
  unfolding serve_http
  serve_http_passed b private h = elim (Bool-cases (r.authorization == "")) [
    | inr given ↦ by_bearer_lem (bearer_identity a r.authorization) refl (cc (h, private, given))
    | inl missing ↦ elim (Bool-cases (a.mode == "token")) [
      | inl tokens ↦ cc (h, private, missing, tokens)
      | inr open_mode ↦
          by_session_lem (session_identity a r now st).0 b
            (λ p. cc (open_mode, (eq_iff a.mode "token").1 p)) refl
            (cc (h, private, missing, open_mode))
    ]
  ]
