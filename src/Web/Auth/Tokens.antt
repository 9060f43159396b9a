-- ===== src/Web/Auth/Tokens.antt =====
-- API tokens of internal/web/auth.go: the validated entries, and the identity of a bearer token. The
-- digest is a parameter, and so is the file of tokens, read and decoded.
use Prim.Native.Char.{code}
use mutandae.Prelude.{
  ℕ, ◌+◌, ◌-◌, ◌*◌, String, Bool, true, false, ◌&&◌, Option, none, some, List, [], ◌∷◌, ◌++◌,
  length, leb, ◌==◌, string_eq, nat_eq, if◌then◌else◌, trim_space, lower, decimal, ◌<>◌,
}
use mutandae.Protocol.Errors.{Result, ok, err, plain, ◌>>=◌}
use mutandae.Protocol.Validation.{quote}
use mutandae.Web.Auth.{role_admin, normalize_role}

pub record ApiTokenConfig : Type 0 where
  pub name : String
  pub token_sha256 : String
  pub role : String

pub record TokenEntry : Type 0 where
  pub name : String
  pub digest : List ℕ
  pub role : String

-- The value of a hexadecimal digit.
abbrev nibble : ℕ → Option ℕ
nibble c =
    if leb b'0' c && leb c b'9'
    then some (c - b'0')
    else if leb b'a' c && leb c b'f'
    then some (c - b'a' + 10)
    else if leb b'A' c && leb c b'F'
    then some (c - b'A' + 10)
    else none

abbrev joined : Option ℕ → Option ℕ → Option (List ℕ) → Option (List ℕ)
joined (some h) (some l) (some bs) = some ((h * 16 + l) ∷ bs)
joined _ _ _ = none

-- `hex.DecodeString`
unfoldable pub decode_hex : String → Option (List ℕ)
decode_hex String.[] = some []
decode_hex (String.◌∷◌ c String.[]) = none
decode_hex (String.◌∷◌ c (String.◌∷◌ d s)) =
    joined (nibble (code c)) (nibble (code d)) (decode_hex s)

-- A digest of 32 bytes.
abbrev pub sized : Option (List ℕ) → Option (List ℕ)
sized none = none
sized (some bs) = if length bs == 32 then some bs else none

abbrev pub sha256_digest : String → Option (List ℕ)
sha256_digest text = sized (decode_hex text)

unfoldable pub same_digest : List ℕ → List ℕ → Bool
same_digest [] [] = true
same_digest (a ∷ xs) (b ∷ ys) = a == b && same_digest xs ys
same_digest _ _ = false

abbrev pub trimmed_entry : ApiTokenConfig → ApiTokenConfig
trimmed_entry e = record {
  name = trim_space e.name;
  token_sha256 = lower (trim_space e.token_sha256);
  role = normalize_role e.role;
}

abbrev pub check_digest : ApiTokenConfig → Option (List ℕ) → Result ApiTokenConfig
check_digest e none = err (plain ("API token " <> quote e.name <> " has an invalid SHA-256 digest"))
check_digest e (some bs) =
    if e.role == ""
    then err (plain ("API token " <> quote e.name <> " has an invalid role"))
    else ok e

-- One turn of the loop of `validateTokenEntries`.
unfoldable pub validate_token_entry : ℕ → ApiTokenConfig → Result ApiTokenConfig
unfolding decode_hex normalize_role
validate_token_entry index entry =
    let e = trimmed_entry entry in
    if e.name == ""
    then err (plain ("API token " <> decimal index <> " has no name"))
    else check_digest e (sha256_digest e.token_sha256)

unfoldable pub validate_token_entries : ℕ → List ApiTokenConfig → Result (List ApiTokenConfig)
unfolding validate_token_entry
validate_token_entries index [] = ok []
validate_token_entries index (e ∷ es) = validate_token_entry index e >>= λ e'.
    validate_token_entries (index + 1) es >>= λ es'. ok (e' ∷ es')

abbrev pub entry_of : ApiTokenConfig → Option (List ℕ) → List TokenEntry → List TokenEntry
entry_of e none rest = rest
entry_of e (some bs) rest = record { name = e.name; digest = bs; role = e.role } ∷ rest

-- `makeTokenEntries`
unfoldable pub make_token_entries : List ApiTokenConfig → List TokenEntry
unfolding decode_hex
make_token_entries [] = []
make_token_entries (e ∷ es) = entry_of e (sha256_digest e.token_sha256) (make_token_entries es)

abbrev pub env_entry : (String → List ℕ) → String → TokenEntry
env_entry sha256 token = record { name = "env"; digest = sha256 token; role = role_admin }

-- `tokenEntries`, with the digest of the plain token as an administrator's.
unfoldable pub token_entries :
    (String → List ℕ) → String → List ApiTokenConfig → Result (List TokenEntry)
unfolding validate_token_entries make_token_entries
token_entries sha256 raw entries = validate_token_entries 0 entries >>= λ valid.
    let out = make_token_entries valid in
    let token = trim_space raw in
    ok (if token == "" then out else (out ++ env_entry sha256 token ∷ []))
