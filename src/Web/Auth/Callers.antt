-- ===== src/Web/Auth/Callers.antt =====
-- Who a request comes from, internal/web/auth.go: the identity of its bearer token and that of its
-- session's cookie. The digests, the base64 decoder and the file of tokens are parameters.
use Prim.Native.Char.{code}
use mutandae.Prelude.{
  ℕ, String, Bool, not, ◌||◌, Option, none, some, List, [], ◌∷◌, ◌++◌, lookup, ◌==◌, string_eq,
  nat_eq, if◌then◌else◌, is_space, lower, trim_space, ◌<>◌,
}
use mutandae.Protocol.{Time}
use mutandae.Protocol.Errors.{Result, ok, err, plain, ◌>>=◌}
use mutandae.Web.Auth.{AuthIdentity, HttpRequest, Session, SessionStore, get_session, valid_role}
use mutandae.Web.Auth.Tokens.{
  ApiTokenConfig, TokenEntry, same_digest, make_token_entries, validate_token_entries,
}

-- `read_tokens` reads and decodes the file of a path.
pub record Authenticator : Type 0 where
  pub mode : String
  pub tokens : List TokenEntry
  pub token_file : String
  pub read_tokens : String → Result (List ApiTokenConfig)
  pub sha256 : String → List ℕ
  pub has_key : Bool
  pub hmac : String → String
  pub decode_base64 : String → Option String

-- `LoadAPITokensFile`
unfoldable pub load_api_tokens_file : Authenticator → Result (List ApiTokenConfig)
load_api_tokens_file a =
    let path = trim_space a.token_file in
    if path == ""
    then err (plain "API tokens file path is empty")
    else a.read_tokens path >>= λ entries. validate_token_entries 0 entries

abbrev with_file : List TokenEntry → Result (List ApiTokenConfig) → List TokenEntry
with_file entries (err e) = entries
with_file entries (ok file) = entries ++ make_token_entries file

-- The method `tokenEntries`.
unfoldable pub current_entries : Authenticator → List TokenEntry
unfolding load_api_tokens_file
current_entries a =
    if a.token_file == "" then a.tokens else with_file a.tokens (load_api_tokens_file a)

-- `strings.Fields`: the first word as far as it is read, and the words behind it.
abbrev push_word : String → List String → List String
push_word String.[] words = words
push_word (String.◌∷◌ c w) words = String.◌∷◌ c w ∷ words

fields_from : String → String × List String
fields_from String.[] = ("", [])
fields_from (String.◌∷◌ c s) =
    let rest = fields_from s in
    if is_space c then ("", push_word rest.0 rest.1) else (String.◌∷◌ c rest.0, rest.1)

unfoldable pub fields : String → List String
unfolding fields_from
fields s = let r = fields_from s in push_word r.0 r.1

abbrev principal_of : TokenEntry → String
principal_of entry = if entry.name == "" then "api-token" else entry.name

-- The loop over the entries: the first one of the digest counts.
unfoldable pub match_token : List ℕ → List TokenEntry → Option AuthIdentity
unfolding same_digest
match_token digest [] = none
match_token digest (entry ∷ entries) =
    let rest = match_token digest entries in
    let principal = principal_of entry in
    if same_digest digest entry.digest
    then some (record {
      principal = principal;
      subject = principal;
      email = "";
      name = principal;
      role = entry.role;
    })
    else rest

unfoldable pub bearer_words : Authenticator → List String → Option AuthIdentity
bearer_words a (scheme ∷ token ∷ []) =
    if not (lower scheme == "bearer") || token == ""
    then none
    else match_token (a.sha256 token) (current_entries a)
bearer_words a _ = none

unfoldable pub bearer_identity : Authenticator → String → Option AuthIdentity
unfolding bearer_words fields
bearer_identity a value = bearer_words a (fields value)

abbrev grown : List String → String → List String
grown [] c = c ∷ []
grown (w ∷ ws) c = (c <> w) ∷ ws

-- `strings.Split(value, ".")`
unfoldable pub split_dots : String → List String
split_dots String.[] = "" ∷ []
split_dots (String.◌∷◌ c s) =
    let rest = split_dots s in if code c == b'.' then "" ∷ rest else grown rest (String.◌∷◌ c "")

abbrev signed_by : Authenticator → String → Option String → Option String
signed_by a payload none = none
signed_by a payload (some signature) =
    if signature == a.hmac payload then a.decode_base64 payload else none

abbrev signed_parts : Authenticator → List String → Option String
signed_parts a (payload ∷ signature ∷ []) =
    if a.has_key then signed_by a payload (a.decode_base64 signature) else none
signed_parts a _ = none

-- `verifySignedValue`, with `verifyPayload`.
unfoldable pub verify_signed_value : Authenticator → String → Option String
unfolding split_dots
verify_signed_value a value = signed_parts a (split_dots value)

unfoldable pub session_answer :
    Result (Option Session) × SessionStore → Option AuthIdentity × SessionStore
session_answer (ok (some s), st) =
    if valid_role s.role
    then (
      some (record {
        principal = s.principal;
        subject = s.subject;
        email = s.email;
        name = s.name;
        role = s.role;
      }),
      st,
    )
    else (none, st)
session_answer (_, st) = (none, st)

unfoldable pub session_of_id :
    HttpRequest → Time → SessionStore → Option String → Option AuthIdentity × SessionStore
unfolding session_answer
session_of_id r now st none = (none, st)
session_of_id r now st (some id) = session_answer (get_session r.cancelled id now st)

abbrev pub cookie_value : Option String → String
cookie_value none = ""
cookie_value (some value) = value

unfoldable pub session_identity :
    Authenticator → HttpRequest → Time → SessionStore → Option AuthIdentity × SessionStore
unfolding session_of_id verify_signed_value
session_identity a r now st =
    let value = cookie_value (lookup "mutandae_session" r.cookies) in
    if value == "" then (none, st) else session_of_id r now st (verify_signed_value a value)
