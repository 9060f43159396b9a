-- ===== src/Web/Auth/Claims.antt =====
-- ID tokens of internal/web/auth.go: their verification, and the identity that their claims give. The
-- decoders, the keys of the issuer and the signature's test are parameters.
pub mod Accepted
use Prim.Native.Char.{code}
use mutandae.Prelude.{
  ℕ, ◌+◌, ◌*◌, String, Bool, true, false, not, ◌&&◌, ◌||◌, Option, none, some, List, [], ◌∷◌, Dict,
  lookup, ltb, ◌==◌, string_eq, nat_eq, if◌then◌else◌, any, trim_space, ◌<>◌,
}
use mutandae.Protocol.{Time}
use mutandae.Protocol.Iso8601.{second}
use mutandae.Protocol.Errors.{Result, ok, err, plain}
use mutandae.Lifecycle.Env.{Call}
use mutandae.Web.Auth.{AuthIdentity, normalize_role, role_admin, role_operator, role_viewer}
use mutandae.Web.Auth.Callers.{split_dots, fields}

-- A decoded claim: a text, a list, whose items are `none` where they are no texts, a number, which is
-- `none` where it is negative or no integer of 64 bits, or anything else.
pub data Claim : Type 0 where
  text_claim : String → Claim
  list_claim : List (Option String) → Claim
  number_claim : Option ℕ → Claim
  other_claim : Claim

pub record IdTokenClaims : Type 0 where
  pub issuer : String
  pub audience : List String
  pub expires_at : ℕ
  pub nonce : String
  pub subject : String
  pub email : String
  pub name : String
  pub preferred_username : String
  pub role : String
  pub roles : List String

-- One turn of the loop over the roles.
abbrev better_role : String → String → String
better_role role normalized =
    if not (normalized == "")
      && (role == ""
          || normalized == role_admin
          || normalized == role_operator && role == role_viewer)
    then normalized
    else role

unfoldable pub best_role : String → List String → String
best_role role [] = role
best_role role (candidate ∷ rest) = best_role (better_role role (normalize_role candidate)) rest

abbrev pub or_text : String → String → String
or_text s t = if s == "" then t else s

unfoldable pub claims_role : IdTokenClaims → String
unfolding best_role
claims_role c =
    let role = normalize_role c.role in
    or_text (if role == "" then best_role "" c.roles else role) role_viewer

-- The method `identity`.
unfoldable pub claims_identity : IdTokenClaims → AuthIdentity
claims_identity c = record {
  principal = or_text c.email (or_text c.preferred_username (or_text c.name c.subject));
  subject = c.subject;
  email = c.email;
  name = c.name;
  role = claims_role c;
}

abbrev pub text_of : Option Claim → String
text_of (some (text_claim t)) = t
text_of _ = ""

abbrev texts : List (Option String) → List String
texts [] = []
texts (none ∷ items) = texts items
texts (some t ∷ items) = t ∷ texts items

unfoldable pub claim_audience : Option Claim → List String
claim_audience (some (text_claim t)) = t ∷ []
claim_audience (some (list_claim items)) = texts items
claim_audience _ = []

abbrev pub claim_number : Option Claim → Option ℕ
claim_number (some (number_claim n)) = n
claim_number _ = none

unfoldable pub string_slice_claim : Option Claim → List String
string_slice_claim (some (text_claim t)) = fields t
string_slice_claim (some (list_claim items)) = texts items
string_slice_claim _ = []

-- `stringClaim`
abbrev string_claim : Option Claim → String
string_claim claim = trim_space (text_of claim)

-- `strings.TrimRight(s, "/")`
unfoldable pub trim_slashes : String → String
trim_slashes String.[] = ""
trim_slashes (String.◌∷◌ c s) =
    let rest = trim_slashes s in if code c == b'/' && rest == "" then "" else String.◌∷◌ c rest

-- `time.Unix`, with the seconds from Go's zero time to 1970.
abbrev pub unix : ℕ → Time
unix seconds = (seconds + 62_135_596_800) * second

-- Whether a time lies behind the claimed one.
abbrev pub live : Option ℕ → Time → Bool
live none now = false
live (some seconds) now = ltb now (unix seconds)

abbrev pub seconds_of : Option ℕ → ℕ
seconds_of none = 0
seconds_of (some n) = n

abbrev pub claims_of : Dict Claim → IdTokenClaims
claims_of raw = record {
  issuer = text_of (lookup "iss" raw);
  audience = claim_audience (lookup "aud" raw);
  expires_at = seconds_of (claim_number (lookup "exp" raw));
  nonce = text_of (lookup "nonce" raw);
  subject = text_of (lookup "sub" raw);
  email = string_claim (lookup "email" raw);
  name = string_claim (lookup "name" raw);
  preferred_username = string_claim (lookup "preferred_username" raw);
  role = string_claim (lookup "role" raw);
  roles = string_slice_claim (lookup "roles" raw);
}

-- The checks behind the signature's.
unfoldable pub check_claims : String → String → String → Time → Dict Claim → Result IdTokenClaims
check_claims issuer client_id expected_nonce now raw =
    let claimed = text_of (lookup "iss" raw) in
    let audience = claim_audience (lookup "aud" raw) in
    let exp = claim_number (lookup "exp" raw) in
    let nonce = text_of (lookup "nonce" raw) in
    let subject = text_of (lookup "sub" raw) in
    if not (trim_slashes claimed == issuer)
    then err (plain "ID token issuer is invalid")
    else if not (any (λ c. c == client_id) audience)
    then err (plain "ID token audience is invalid")
    else if not (live exp now)
    then err (plain "ID token is expired")
    else if not (nonce == expected_nonce)
    then err (plain "ID token nonce is invalid")
    else if subject == ""
    then err (plain "ID token subject is missing")
    else ok (claims_of raw)

-- `fetch_jwks` gets the keys of the issuer, anew where it is told to; `decode_header` gives the
-- algorithm and the key's id; texts stand for bytes.
pub record OidcClient (W Key : Type 0) : Type 0 where
  pub issuer : String
  pub client_id : String
  pub decode_base64 : String → Option String
  pub decode_header : String → Option (String × String)
  pub decode_claims : String → Result (Dict Claim)
  pub fetch_jwks : Bool → Call W (Dict Key)
  pub verify_rs256 : Key → String → String → Bool

module _ {W Key : Type 0} (o : OidcClient W Key) where
  -- The id of the signing key, where the header is supported.
  abbrev pub key_id : Option (String × String) → Option String
  key_id none = none
  key_id (some (alg, kid)) = if not (alg == "RS256") || kid == "" then none else some kid

  abbrev pub decoded_header : Option String → Option String
  decoded_header none = none
  decoded_header (some bytes) = key_id (o.decode_header bytes)

  check_decoded : String → Time → Result (Dict Claim) → Result IdTokenClaims
  unfolding check_claims
  check_decoded nonce now (err e) = err e
  check_decoded nonce now (ok raw) = check_claims o.issuer o.client_id nonce now raw

  unfoldable pub check_signature :
      String → String → String → String → Time → Option Key → Result IdTokenClaims
  unfolding check_decoded
  check_signature signed payload signature nonce now none =
      err (plain "ID token signing key is unknown")
  check_signature signed payload signature nonce now (some key) =
      if not (o.verify_rs256 key signed signature)
      then err (plain "ID token signature is invalid")
      else check_decoded nonce now (o.decode_claims payload)

  -- The keys that are fetched anew where the id is not among the known ones.
  found_key : String → Result (Dict Key) × W → Result (Option Key) × W
  found_key kid (err e, w) = (err e, w)
  found_key kid (ok keys, w) = (ok (lookup kid keys), w)

  search_key : String → Result (Option Key) × W → Result (Option Key) × W
  unfolding found_key
  search_key kid (ok none, w) = found_key kid (o.fetch_jwks true w)
  search_key kid (r, w) = (r, w)

  unfoldable pub signing_key : String → Call W (Option Key)
  unfolding search_key found_key
  signing_key kid w = search_key kid (found_key kid (o.fetch_jwks false w))

  with_key :
      String → String → String → String → Time → Result (Option Key) × W → Result IdTokenClaims × W
  unfolding check_signature
  with_key signed payload signature nonce now (err e, w) = (err e, w)
  with_key signed payload signature nonce now (ok key, w) =
      (check_signature signed payload signature nonce now key, w)

  verify_parts :
      String → String → Time → Option String → Option String → Option String → Call W IdTokenClaims
  unfolding with_key signing_key
  verify_parts signed nonce now none payload signature w =
      (err (plain "ID token has an unsupported header"), w)
  verify_parts signed nonce now (some kid) none signature w =
      (err (plain "ID token payload is invalid"), w)
  verify_parts signed nonce now (some kid) (some payload) none w =
      (err (plain "ID token signature is invalid"), w)
  verify_parts signed nonce now (some kid) (some payload) (some signature) w =
      with_key signed payload signature nonce now (signing_key kid w)

  verify_split : String → Time → List String → Call W IdTokenClaims
  unfolding verify_parts
  verify_split nonce now (header ∷ payload ∷ signature ∷ []) w =
      verify_parts (header <> "." <> payload) nonce now (decoded_header (o.decode_base64 header))
        (o.decode_base64 payload) (o.decode_base64 signature) w
  verify_split nonce now _ w = (err (plain "ID token is not a JWT"), w)

  unfoldable pub verify_id_token : String → String → Time → Call W IdTokenClaims
  unfolding verify_split split_dots
  verify_id_token token nonce now w = verify_split nonce now (split_dots token) w
