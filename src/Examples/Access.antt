-- ===== src/Examples/Access.antt =====
-- The properties of the guard in front of the handlers, at concrete requests.
use mutandae.Prelude.{
  ℕ, zero, suc, All, String, ◌≡◌, refl, true, false, none, some, List, [], ◌∷◌, lookup, lower,
  trim_space, delete, has_prefix,
}
use mutandae.Protocol.Errors.{ok, err, plain}
use mutandae.Lifecycle.Integration.Guarding.{secure_equal}
use mutandae.Web.Auth.{
  AuthIdentity, HttpRequest, SessionStore, get_session, is_mutation, delete_method, post_method,
  role_allows, valid_role, required_role,
}
use mutandae.Web.Auth.Tokens.{ApiTokenConfig, TokenEntry, token_entries, decode_hex}
use mutandae.Web.Auth.Entries.{Usable, token_entries-Usable}
use mutandae.Web.Auth.Gate.{refused, to_login, serve_http, authorize, validate_csrf, is_api_request}
use mutandae.Web.Auth.Callers.{
  Authenticator, bearer_identity, match_token, current_entries, session_identity,
}
use mutandae.Web.Auth.Passed.{Allowed, Origin, serve_http_passed}

abbrev digest_of : String → List ℕ
digest_of String.[] = []
digest_of (String.◌∷◌ c s) = 1 ∷ digest_of s

abbrev server : Authenticator
server = record {
  mode = "oidc";
  tokens = record { name = "ops"; digest = 1 ∷ 1 ∷ []; role = "admin" } ∷ [];
  token_file = "";
  read_tokens = λ path. err (plain "no file");
  sha256 = digest_of;
  has_key = true;
  hmac = λ payload. payload;
  decode_base64 = λ text. some text;
}

abbrev deletes : HttpRequest
deletes = record {
  method = delete_method;
  path = "/identities/billing";
  authorization = "Bearer ab";
  csrf_header = "";
  cookies = [];
  cancelled = none;
  identity = none;
  bearer = false;
}

abbrev operator : AuthIdentity
operator = record { principal = "ops"; subject = "ops"; email = ""; name = "ops"; role = "admin" }

abbrev admitted_request : HttpRequest
admitted_request = record deletes { identity = some operator; bearer = true }

serve_http_passed_example :
    (identity : AuthIdentity) × Allowed deletes admitted_request identity
    × Origin server deletes 10 [] admitted_request identity
unfolding serve_http lower bearer_identity match_token current_entries authorize required_role
    role_allows
serve_http_passed_example =
    serve_http_passed server "f00d" deletes 10 [] admitted_request refl refl refl

abbrev stored : SessionStore
stored =
    (
      "s1",
      record {
        principal = "ann";
        subject = "ann";
        email = "";
        name = "Ann";
        role = "viewer";
        expires_at = 20;
      },
    )
    ∷ []

-- A viewer with a session.
abbrev posts : HttpRequest
posts = record deletes {
  method = post_method;
  authorization = "";
  csrf_header = "c";
  cookies = ("mutandae_session", "s1.s1") ∷ ("mutandae_csrf", "c") ∷ [];
}

viewer_refused : (serve_http server "f00d" posts 10 stored).0.0 ≡ refused "insufficient role"
unfolding serve_http session_identity lookup get_session valid_role lower trim_space authorize
    is_mutation validate_csrf secure_equal required_role role_allows
viewer_refused = refl

late_viewer : serve_http server "f00d" posts 20 stored ≡ ((to_login, none), [])
unfolding serve_http session_identity lookup get_session is_api_request delete has_prefix
late_viewer = refl

unshown :
    (serve_http server "f00d" (record posts { csrf_header = "" }) 10 stored).0.0
    ≡ refused "csrf validation failed"
unfolding serve_http session_identity lookup get_session valid_role lower trim_space authorize
    is_mutation validate_csrf secure_equal
unshown = refl

abbrev listed : ApiTokenConfig
listed = record {
  name = " ci ";
  token_sha256 = "000102030405060708090a0b0c0d0e0f101112131415161718191a1b1c1d1e1f";
  role = "Operator";
}

abbrev bytes_to : ℕ → List ℕ → List ℕ
bytes_to zero out = out
bytes_to (suc n) out = bytes_to n (n ∷ out)

abbrev constant_digest : String → List ℕ
constant_digest token = bytes_to 32 []

abbrev listed_tokens : List TokenEntry
listed_tokens =
    record { name = "ci"; digest = bytes_to 32 []; role = "operator" }
    ∷ record { name = "env"; digest = constant_digest "t"; role = "admin" }
    ∷ []

listed_entries : token_entries constant_digest "t" (listed ∷ []) ≡ ok listed_tokens
unfolding token_entries decode_hex trim_space lower valid_role
listed_entries = refl

token_entries-Usable_example : All Usable listed_tokens
token_entries-Usable_example =
    token_entries-Usable constant_digest "t" (listed ∷ []) listed_tokens (λ s. refl) listed_entries
