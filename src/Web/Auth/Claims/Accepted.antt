-- ===== src/Web/Auth/Claims/Accepted.antt =====
-- What an accepted ID token has been checked for.
use mutandae.Prelude.{
  ℕ, ◌<◌, String, ◌≡◌, ◌≢◌, refl, inl, inr, arith, true, Bool-cases, Option, none, some, List, [],
  ◌∷◌, lookup, any, ◌==◌, string_eq, eq_iff, ◌<>◌,
}
use mutandae.Protocol.{Time}
use mutandae.Protocol.Errors.{Result, ok, err, ok-inj}
use mutandae.Web.Auth.Callers.{split_dots}
use mutandae.Web.Auth.Claims.{
  Claim, IdTokenClaims, OidcClient, trim_slashes, text_of, unix, live, claims_of, seconds_of,
  claim_audience, claim_number, check_claims, check_decoded, check_signature, decoded_header,
  signing_key, with_key, verify_parts, verify_split, verify_id_token,
}

-- The claims say what is expected.
pub record Expected (issuer client_id nonce : String) (now : Time) (raw : List (String × Claim))
    (c : IdTokenClaims) : Type 0 where
  pub claims : c ≡ claims_of raw
  pub from : trim_slashes c.issuer ≡ issuer
  pub addressed : any (λ a. a == client_id) c.audience ≡ true
  pub alive : now < unix c.expires_at
  pub answered : c.nonce ≡ nonce
  pub named : c.subject ≢ ""

built :
    (issuer client_id nonce : String) (now : Time) (raw : List (String × Claim)) (c : IdTokenClaims)
    → ok (claims_of raw) ≡ ok c
    → Expected issuer client_id nonce now raw (claims_of raw)
    → Expected issuer client_id nonce now raw c
built issuer client_id nonce now raw c e h = rw (← ok-inj e) h

later : (now : Time) (exp : Option ℕ) → live exp now ≡ true → now < unix (seconds_of exp)
later now none h = cc
later now (some seconds) h = ground arith

check_claims_lem :
    (issuer client_id nonce : String) (now : Time) (raw : List (String × Claim)) (c : IdTokenClaims)
    → check_claims issuer client_id nonce now raw ≡ ok c
    → Expected issuer client_id nonce now raw c
unfolding check_claims
check_claims_lem issuer client_id nonce now raw c h =
    elim (Bool-cases (trim_slashes (text_of (lookup "iss" raw)) == issuer)) [
      | inr a ↦ cc (h, a)
      | inl a ↦ elim (Bool-cases (any (λ x. x == client_id) (claim_audience (lookup "aud" raw)))) [
        | inr b ↦ cc (h, a, b)
        | inl b ↦ elim (Bool-cases (live (claim_number (lookup "exp" raw)) now)) [
          | inr l ↦ cc (h, a, b, l)
          | inl l ↦ elim (Bool-cases (text_of (lookup "nonce" raw) == nonce)) [
            | inr n ↦ cc (h, a, b, l, n)
            | inl n ↦ elim (Bool-cases (text_of (lookup "sub" raw) == "")) [
              | inl s ↦ cc (h, a, b, l, n, s)
              | inr s ↦ built issuer client_id nonce now raw c (cc (h, a, b, l, n, s)) (record {
                claims = refl;
                from = (eq_iff _ issuer).0 a;
                addressed = b;
                alive = later now _ l;
                answered = (eq_iff _ nonce).0 n;
                named = λ p. cc (s, (eq_iff (text_of (lookup "sub" raw)) "").1 p);
              })
            ]
          ]
        ]
      ]
    ]

module _ {W Key : Type 0} (o : OidcClient W Key) where
  -- The token's parts, and the key that its signature has been tested with.
  pub record Accepted (token nonce : String) (now : Time) (w : W) (c : IdTokenClaims) : Type 0 where
    pub header : String
    pub payload : String
    pub signature : String
    pub kid : String
    pub signature_bytes : String
    pub key : Key
    pub split : split_dots token ≡ header ∷ payload ∷ signature ∷ []
    pub supported : decoded_header o (o.decode_base64 header) ≡ some kid
    pub decoded : o.decode_base64 signature ≡ some signature_bytes
    pub body : String
    pub read : o.decode_base64 payload ≡ some body
    pub raw : List (String × Claim)
    pub parsed : o.decode_claims body ≡ ok raw
    pub known : (signing_key o kid w).0 ≡ ok (some key)
    pub signed : o.verify_rs256 key (header <> "." <> payload) signature_bytes ≡ true
    pub expected : Expected o.issuer o.client_id nonce now raw c

  check_decoded_lem :
      (nonce : String) (now : Time) (r : Result (List (String × Claim))) (c : IdTokenClaims)
      → check_decoded o nonce now r ≡ ok c
      → (raw : List (String × Claim)) × (r ≡ ok raw) × Expected o.issuer o.client_id nonce now raw c
  unfolding check_decoded
  check_decoded_lem nonce now (err e) c h = cc
  check_decoded_lem nonce now (ok raw) c h =
      (raw, refl, check_claims_lem o.issuer o.client_id nonce now raw c h)

  check_signature_lem :
      (signed payload signature nonce : String) (now : Time) (key : Option Key) (c : IdTokenClaims)
      → check_signature o signed payload signature nonce now key ≡ ok c
      → (k : Key) × (key ≡ some k)
        × (o.verify_rs256 k signed signature ≡ true)
        × (raw : List (String × Claim)) × (o.decode_claims payload ≡ ok raw)
        × Expected o.issuer o.client_id nonce now raw c
  unfolding check_signature
  check_signature_lem signed payload signature nonce now none c h = cc
  check_signature_lem signed payload signature nonce now (some k) c h =
      elim (Bool-cases (o.verify_rs256 k signed signature)) [
        | inr bad ↦ cc (h, bad)
        | inl good ↦
            let (raw, parsed, expected) =
              check_decoded_lem nonce now (o.decode_claims payload) c (cc (h, good)) in
            (k, refl, good, raw, parsed, expected)
      ]

  with_key_lem :
      (signed payload signature nonce : String) (now : Time) (r : Result (Option Key) × W)
      (c : IdTokenClaims)
      → (with_key o signed payload signature nonce now r).0 ≡ ok c
      → (k : Key) × (r.0 ≡ ok (some k))
        × (o.verify_rs256 k signed signature ≡ true)
        × (raw : List (String × Claim)) × (o.decode_claims payload ≡ ok raw)
        × Expected o.issuer o.client_id nonce now raw c
  unfolding with_key
  with_key_lem signed payload signature nonce now (err e, w) c h = cc
  with_key_lem signed payload signature nonce now (ok key, w) c h =
      let (k, found, good, raw, parsed, expected) =
        check_signature_lem signed payload signature nonce now key c h in
      (k, cc found, good, raw, parsed, expected)

  verify_parts_lem :
      (header payload signature nonce : String) (token : String) (now : Time) (w : W)
      (c : IdTokenClaims) (kid bytes body : Option String)
      → split_dots token ≡ header ∷ payload ∷ signature ∷ []
      → decoded_header o (o.decode_base64 header) ≡ kid
      → o.decode_base64 payload ≡ body
      → o.decode_base64 signature ≡ bytes
      → (verify_parts o (header <> "." <> payload) nonce now kid body bytes w).0 ≡ ok c
      → Accepted token nonce now w c
  unfolding verify_parts
  verify_parts_lem header payload signature nonce token now w c none bytes body t e f d h = cc
  verify_parts_lem header payload signature nonce token now w c (some kid) bytes none t e f d h = cc
  verify_parts_lem header payload signature nonce token now w c (some kid) none (some b) t e f d h =
      cc
  verify_parts_lem header payload signature nonce token now w c (some kid) (some bytes) (some b) t e
        f d h =
      let (k, found, good, raw, parsed, expected) =
        with_key_lem (header <> "." <> payload) b bytes nonce now (signing_key o kid w) c h in
      record {
        header = header;
        payload = payload;
        signature = signature;
        kid = kid;
        signature_bytes = bytes;
        key = k;
        split = t;
        supported = e;
        decoded = d;
        body = b;
        read = f;
        raw = raw;
        parsed = parsed;
        known = found;
        signed = good;
        expected = expected;
      }

  verify_split_lem :
      (token nonce : String) (now : Time) (w : W) (c : IdTokenClaims) (parts : List String)
      → split_dots token ≡ parts
      → (verify_split o nonce now parts w).0 ≡ ok c
      → Accepted token nonce now w c
  unfolding verify_split
  verify_split_lem token nonce now w c [] t h = cc
  verify_split_lem token nonce now w c (p ∷ []) t h = cc
  verify_split_lem token nonce now w c (p ∷ q ∷ []) t h = cc
  verify_split_lem token nonce now w c (p ∷ q ∷ r ∷ s ∷ parts) t h = cc
  verify_split_lem token nonce now w c (p ∷ q ∷ r ∷ []) t h =
      verify_parts_lem p q r nonce token now w c _ _ _ t refl refl refl h

  -- When an ID token is accepted, it has three parts, its header is supported, a key that the
  -- issuer has for the header's key id verifies the signature over the first two parts, and the
  -- returned claims are those of the second part: they name the expected issuer, the client among
  -- the audience, the expected nonce and a subject, and have not expired.
  pub verify_id_token_lem :
      (token nonce : String) (now : Time) (w : W) (c : IdTokenClaims)
      → (verify_id_token o token nonce now w).0 ≡ ok c
      → Accepted token nonce now w c
  unfolding verify_id_token
  verify_id_token_lem token nonce now w c h =
      verify_split_lem token nonce now w c (split_dots token) refl h
