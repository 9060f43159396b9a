-- ===== src/Web/Auth/Entries.antt =====
-- The entries that the guard is built with.
use mutandae.Prelude.{
  ℕ, ◌+◌, String, ◌≡◌, refl, inl, inr, true, false, Bool-cases, Option, none, some, List, [], ◌∷◌,
  ◌++◌, All, All-append, if◌then◌else◌, length, ◌==◌, string_eq, nat_eq, nat_beq_iff, trim_space,
  lower,
}
use mutandae.Protocol.Errors.{ok, ok-inj, bind_ok}
use mutandae.Web.Auth.{valid_role, normalize_role, role_admin}
use mutandae.Web.Auth.Tokens.{
  ApiTokenConfig, TokenEntry, decode_hex, sized, sha256_digest, check_digest, trimmed_entry,
  entry_of, validate_token_entry, validate_token_entries, make_token_entries, env_entry,
  token_entries,
}

-- An entry of a digest of 32 bytes and a role.
pub record Usable (entry : TokenEntry) : Type 0 where
  pub sized : length entry.digest ≡ 32
  pub role : valid_role entry.role ≡ true

valid_role-normalize_role :
    (role : String) → (normalize_role role == "") ≡ false → valid_role (normalize_role role) ≡ true
unfolding normalize_role
valid_role-normalize_role role h = elim (Bool-cases (valid_role (lower (trim_space role)))) [
  | inr invalid ↦ cc (h, invalid)
  | inl valid ↦ rw valid valid
]

check_digest_lem :
    (e e' : ApiTokenConfig) (bytes : Option (List ℕ))
    → check_digest e bytes ≡ ok e'
    → (e' ≡ e) × ((e.role == "") ≡ false)
check_digest_lem e e' none h = cc
check_digest_lem e e' (some bytes) h = elim (Bool-cases (e.role == "")) [
  | inl empty ↦ cc (h, empty)
  | inr named ↦ (cc (h, named), named)
]

validate_token_entry_lem :
    (index : ℕ) (entry e : ApiTokenConfig)
    → validate_token_entry index entry ≡ ok e
    → valid_role e.role ≡ true
unfolding validate_token_entry
validate_token_entry_lem index entry e h =
    let shaped = trimmed_entry entry in
    elim (Bool-cases (shaped.name == "")) [
      | inl empty ↦ cc (h, empty)
      | inr named ↦
          let (p, given) =
            check_digest_lem shaped e (sha256_digest shaped.token_sha256) (cc (h, named)) in
          rw (p, valid_role-normalize_role entry.role given) refl
    ]

env_role : valid_role role_admin ≡ true
unfolding valid_role trim_space lower
env_role = refl

entry_of-Usable :
    (e : ApiTokenConfig) (bytes : Option (List ℕ)) (rest : List TokenEntry)
    → valid_role e.role ≡ true
    → All Usable rest
    → All Usable (entry_of e (sized bytes) rest)
entry_of-Usable e none rest valid h = h
entry_of-Usable e (some bytes) rest valid h = elim (Bool-cases (length bytes == 32)) [
  | inl full ↦ rw full (record { sized = (nat_beq_iff (length bytes) 32).0 full; role = valid }, h)
  | inr short ↦ rw short h
]

make_token_entries-Usable :
    (entries : List ApiTokenConfig)
    → All (λ e. valid_role e.role ≡ true) entries
    → All Usable (make_token_entries entries)
unfolding make_token_entries
make_token_entries-Usable [] h = tt
make_token_entries-Usable (e ∷ es) (valid, h) =
    entry_of-Usable e (decode_hex e.token_sha256) (make_token_entries es) valid
      (make_token_entries-Usable es h)

validate_token_entries_lem :
    (index : ℕ) (entries out : List ApiTokenConfig)
    → validate_token_entries index entries ≡ ok out
    → All (λ e. valid_role e.role ≡ true) out
unfolding validate_token_entries
validate_token_entries_lem index [] out h = rw (← ok-inj h) tt
validate_token_entries_lem index (e ∷ es) out h =
    let (e', first, tail) = bind_ok (validate_token_entry index e) _ out h in
    let (es', rest, done) = bind_ok (validate_token_entries (index + 1) es) _ out tail in
    rw (← ok-inj done) (
      validate_token_entry_lem index e e' first,
      validate_token_entries_lem (index + 1) es es' rest,
    )

appended-Usable :
    (sha256 : String → List ℕ) (token : String) (out : List TokenEntry)
    → ((s : String) → length (sha256 s) ≡ 32)
    → All Usable out
    → All Usable (if token == "" then out else (out ++ env_entry sha256 token ∷ []))
unfolding valid_role
appended-Usable sha256 token out sized h = elim (Bool-cases (token == "")) [
  | inl empty ↦ rw empty h
  | inr given ↦ rw given (
      All-append Usable out (env_entry sha256 token ∷ []) h
        (record { sized = sized token; role = env_role }, tt))
]

-- If the digest function yields 32 bytes, all entries that are built from a plain token and a
-- list of configured ones have a digest of 32 bytes and a valid role.
pub token_entries-Usable :
    (sha256 : String → List ℕ) (raw : String) (entries : List ApiTokenConfig)
    (out : List TokenEntry)
    → ((s : String) → length (sha256 s) ≡ 32)
    → token_entries sha256 raw entries ≡ ok out
    → All Usable out
unfolding token_entries
token_entries-Usable sha256 raw entries out sized h =
    let (valid, checked, done) = bind_ok (validate_token_entries 0 entries) _ out h in
    rw (← ok-inj done) (
      appended-Usable sha256 (trim_space raw) (make_token_entries valid) sized
        (make_token_entries-Usable valid (validate_token_entries_lem 0 entries valid checked)))
