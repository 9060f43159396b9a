-- ===== src/Examples/Logins.antt =====
-- The verification of an ID token, on an issuer that signs with a fixed mark.
use mutandae.Prelude.{
  ℕ, ◌+◌, if◌then◌else◌, String, ◌≡◌, refl, none, some, [], ◌∷◌, Dict, lookup, ◌==◌, string_eq,
  trim_space, lower,
}
use mutandae.Protocol.Errors.{ok}
use mutandae.Web.Auth.{normalize_role, valid_role}
use mutandae.Web.Auth.Claims.{
  Claim, text_claim, list_claim, number_claim, OidcClient, claims_of, claims_role, verify_id_token,
  trim_slashes, claim_audience, string_slice_claim,
}
use mutandae.Web.Auth.Claims.Accepted.{Accepted, verify_id_token_lem}

abbrev ann : Dict Claim
ann =
    ("iss", text_claim "https://id.example/")
    ∷ ("aud", list_claim (none ∷ some "mutandae" ∷ []))
    ∷ ("exp", number_claim (some 2_000_000_000))
    ∷ ("nonce", text_claim "n1")
    ∷ ("sub", text_claim "u7")
    ∷ ("roles", list_claim (some "viewer" ∷ some "Admin" ∷ some "operator" ∷ []))
    ∷ []

-- The keys of the issuer are fetched anew, since the first answer has none.
abbrev issuer : OidcClient ℕ String
issuer = record {
  issuer = "https://id.example";
  client_id = "mutandae";
  decode_base64 = λ text. some text;
  decode_header = λ text. some ("RS256", text);
  decode_claims = λ text. ok ann;
  fetch_jwks = λ force n. (ok (if force then ("k1", "public") ∷ [] else []), n + 1);
  verify_rs256 = λ key signed signature. signature == "mark";
}

accepted : (verify_id_token issuer "k1.ann.mark" "n1" 0 5).0 ≡ ok (claims_of ann)
unfolding verify_id_token lookup trim_slashes claim_audience
accepted = refl

ann_is_admin : claims_role (claims_of ann) ≡ "admin"
unfolding claims_role normalize_role valid_role lower trim_space lookup string_slice_claim
ann_is_admin = refl

verify_id_token_lem_example : Accepted issuer "k1.ann.mark" "n1" 0 5 (claims_of ann)
verify_id_token_lem_example =
    verify_id_token_lem issuer "k1.ann.mark" "n1" 0 5 (claims_of ann) accepted
