-- ===== src/Web/Auth/Identities.antt =====
-- Where the identities that the guard finds come from.
use mutandae.Prelude.{
  ℕ, ◌<◌, String, ◌≡◌, ◌≢◌, refl, inl, inr, arith, true, false, Bool-cases, Option-cases, some,
  List, [], ◌∷◌, lookup, ltb, ◌==◌, string_eq, nat_eq, lower, eq_iff,
}
use mutandae.Protocol.{Time}
use mutandae.Web.Auth.{
  AuthIdentity, HttpRequest, Session, SessionStore, get_session, found_session, valid_role,
}
use mutandae.Web.Auth.Tokens.{TokenEntry, same_digest}
use mutandae.Web.Auth.Callers.{
  Authenticator, match_token, current_entries, fields, bearer_words, verify_signed_value,
  session_answer, session_of_id, session_identity, cookie_value,
}

-- The first entry of a digest in a list.
pub data First (digest : List ℕ) : TokenEntry → List TokenEntry → Type 0 where
  here :
      {entry : TokenEntry} {entries : List TokenEntry}
      → entry.digest ≡ digest
      → First digest entry (entry ∷ entries)
  later :
      {entry other : TokenEntry} {entries : List TokenEntry}
      → other.digest ≢ digest
      → First digest entry entries
      → First digest entry (other ∷ entries)

-- The request has the token of an entry.
pub record Bearing (a : Authenticator) (r : HttpRequest) (identity : AuthIdentity) : Type 0 where
  pub scheme : String
  pub token : String
  pub entry : TokenEntry
  pub words : fields r.authorization ≡ scheme ∷ token ∷ []
  pub bearer : lower scheme ≡ "bearer"
  pub first : First (a.sha256 token) entry (current_entries a)
  pub role : identity.role ≡ entry.role

-- The request has the signed id of a stored session.
pub record Sitting (a : Authenticator) (r : HttpRequest) (now : Time) (st : SessionStore)
    (identity : AuthIdentity) : Type 0 where
  pub id : String
  pub session : Session
  pub signed : verify_signed_value a (cookie_value (lookup "mutandae_session" r.cookies)) ≡ some id
  pub found : lookup id st ≡ some session
  pub alive : now < session.expires_at
  pub valid : valid_role session.role ≡ true
  pub role : identity.role ≡ session.role

same_digest-true : (d e : List ℕ) → same_digest d e ≡ true → e ≡ d
unfolding same_digest
same_digest-true [] [] h = refl
same_digest-true [] (b ∷ bs) h = cc
same_digest-true (a ∷ xs) [] h = cc
same_digest-true (a ∷ xs) (b ∷ ys) h = ground (arith, h, same_digest-true xs ys)

same_digest_refl : (d : List ℕ) → same_digest d d ≡ true
unfolding same_digest
same_digest_refl [] = refl
same_digest_refl (a ∷ xs) = ground (arith, same_digest_refl xs)

same_digest-false : (d e : List ℕ) → same_digest d e ≡ false → e ≢ d
same_digest-false d e h p = cc (h, p, same_digest_refl d)

match_token_lem :
    (digest : List ℕ) (entries : List TokenEntry) (identity : AuthIdentity)
    → match_token digest entries ≡ some identity
    → (entry : TokenEntry) × First digest entry entries × (identity.role ≡ entry.role)
unfolding match_token
match_token_lem digest [] identity h = cc
match_token_lem digest (entry ∷ entries) identity h =
    elim (Bool-cases (same_digest digest entry.digest)) [
      | inl e ↦ (entry, here (same_digest-true digest entry.digest e), cc (h, e))
      | inr e ↦
          let (found, first, role) = match_token_lem digest entries identity (cc (h, e)) in
          (found, later (same_digest-false digest entry.digest e) first, role)
    ]

pub bearer_words_lem :
    (a : Authenticator) (r : HttpRequest) (identity : AuthIdentity) (words : List String)
    → fields r.authorization ≡ words
    → bearer_words a words ≡ some identity
    → Bearing a r identity
unfolding bearer_words
bearer_words_lem a r identity [] e h = cc
bearer_words_lem a r identity (scheme ∷ []) e h = cc
bearer_words_lem a r identity (scheme ∷ token ∷ other ∷ words) e h = cc
bearer_words_lem a r identity (scheme ∷ token ∷ []) e h =
    elim (Bool-cases (lower scheme == "bearer")) [
      | inr other ↦ cc (h, other)
      | inl bearer ↦ elim (Bool-cases (token == "")) [
        | inl empty ↦ cc (h, bearer, empty)
        | inr full ↦
            let (entry, first, role) =
              match_token_lem (a.sha256 token) (current_entries a) identity
                (cc (h, bearer, full)) in
            record {
              scheme = scheme;
              token = token;
              entry = entry;
              words = e;
              bearer = (eq_iff (lower scheme) "bearer").0 bearer;
              first = first;
              role = role;
            }
      ]
    ]

session_of_id_lem :
    (a : Authenticator) (r : HttpRequest) (now : Time) (st : SessionStore) (identity : AuthIdentity)
    (id : String)
    → verify_signed_value a (cookie_value (lookup "mutandae_session" r.cookies)) ≡ some id
    → (session_of_id r now st (some id)).0 ≡ some identity
    → Sitting a r now st identity
unfolding session_of_id session_answer get_session found_session
session_of_id_lem a r now st identity id signed h = elim (Option-cases r.cancelled) [
  | inr (e, c) ↦ cc (h, c)
  | inl c ↦ elim (Option-cases (lookup id st)) [
    | inl n ↦ cc (h, c, n)
    | inr (s, found) ↦ elim (Bool-cases (ltb now s.expires_at)) [
      | inr late ↦ cc (h, c, found, late)
      | inl alive ↦ elim (Bool-cases (valid_role s.role)) [
        | inr invalid ↦ cc (h, c, found, alive, invalid)
        | inl valid ↦ record {
          id = id;
          session = s;
          signed = signed;
          found = found;
          alive = ground arith;
          valid = valid;
          role = cc (h, c, found, alive, valid);
        }
      ]
    ]
  ]
]

pub session_identity_lem :
    (a : Authenticator) (r : HttpRequest) (now : Time) (st : SessionStore) (identity : AuthIdentity)
    → (session_identity a r now st).0 ≡ some identity
    → Sitting a r now st identity
unfolding session_identity session_of_id
session_identity_lem a r now st identity h =
    let value = cookie_value (lookup "mutandae_session" r.cookies) in
    elim (Bool-cases (value == "")) [
      | inl empty ↦ cc (h, empty)
      | inr full ↦ elim (Option-cases (verify_signed_value a value)) [
        | inl n ↦ cc (h, full, n)
        | inr (id, signed) ↦ session_of_id_lem a r now st identity id signed (cc (h, full, signed))
      ]
    ]
