-- ===== src/Protocol/Errors.antt =====
-- Go errors. `fmt.Errorf("%w: …", Err)` wraps a sentinel and `errors.Is` looks for it in the chain,
-- so an error is the list of the sentinels in its chain and its text. The sentinels are those of
-- pkg/protocol/errors.go and validation.go and of internal/lifecycle (adapter.go, repository.go, integration.go).
use mutandae.Prelude.{
  ℕ, String, Bool, true, false, List, [], ◌∷◌, ◌==◌, nat_eq, any, ◌<>◌, ◌≡◌, refl,
}

pub data Sentinel : Type 0 where
  conformance forbidden vault_unsupported : Sentinel
  not_found invalid_transition already_retired not_retired rotation_in_progress : Sentinel
  provider_failure confirmation_needed adapter_required no_snapshot : Sentinel
  persistence_failure lease_not_held lease_config create_unsupported : Sentinel
  integration_session_not_found integration_csrf integration_rate_limited : Sentinel

abbrev pub tag : Sentinel → ℕ
tag conformance = 0
tag forbidden = 1
tag vault_unsupported = 2
tag not_found = 3
tag invalid_transition = 4
tag already_retired = 5
tag not_retired = 6
tag rotation_in_progress = 7
tag provider_failure = 8
tag confirmation_needed = 9
tag adapter_required = 10
tag no_snapshot = 11
tag persistence_failure = 12
tag lease_not_held = 13
tag lease_config = 14
tag create_unsupported = 15
tag integration_session_not_found = 16
tag integration_csrf = 17
tag integration_rate_limited = 18

pub record Error : Type 0 where
  pub chain : List Sentinel
  pub text : String

-- `errors.Is`
abbrev pub errors_is : Error → Sentinel → Bool
errors_is e s = any (λ t. tag t == tag s) e.chain

abbrev pub sentinel_text : Sentinel → String
sentinel_text conformance = "protocol: document does not conform to v1"
sentinel_text forbidden = "protocol: operation is forbidden"
sentinel_text vault_unsupported = "vault delivery is not configured for this provider adapter"
sentinel_text not_found = "identity not found"
sentinel_text invalid_transition = "invalid lifecycle transition"
sentinel_text already_retired = "identity is retired"
sentinel_text not_retired = "identity must be retired before it can be deleted"
sentinel_text rotation_in_progress = "identity already has a rotation in progress"
sentinel_text provider_failure = "provider adapter failed"
sentinel_text confirmation_needed = "retirement requires explicit confirmation"
sentinel_text adapter_required = "provider adapter is required"
sentinel_text no_snapshot = "lifecycle snapshot does not exist"
sentinel_text persistence_failure = "lifecycle persistence failed"
sentinel_text lease_not_held = "lease is not held by this instance"
sentinel_text lease_config = "invalid lease configuration"
sentinel_text create_unsupported = "provisioning is not supported by this provider adapter"
sentinel_text integration_session_not_found = "integration session not found or expired"
sentinel_text integration_csrf = "integration session CSRF token is invalid"
sentinel_text integration_rate_limited = "too many integration connection attempts"

-- The sentinel itself.
abbrev pub bare : Sentinel → Error
bare s = record { chain = s ∷ []; text = sentinel_text s }

-- `fmt.Errorf("%w: %v", s, …)`
abbrev pub wrap : Sentinel → String → Error
wrap s detail = record { chain = s ∷ []; text = sentinel_text s <> ": " <> detail }

-- `fmt.Errorf("…: %w", err)`
abbrev pub prefix : String → Error → Error
prefix p e = record { chain = e.chain; text = p <> e.text }

-- `errors.New`
abbrev pub plain : String → Error
plain t = record { chain = []; text = t }

pub data Result {ℓ} (A : Type ℓ) : Type ℓ where
  ok : A → Result A
  err : Error → Result A

infixl 5 ◌>>=◌ ◌>>◌
abbrev pub ◌>>=◌ {ℓ κ} : {A : Type ℓ} {B : Type κ} → Result A → (A → Result B) → Result B
ok a >>= f = f a
err e >>= f = err e

abbrev pub ◌>>◌ {ℓ κ} : {A : Type ℓ} {B : Type κ} → Result A → Result B → Result B
m >> k = m >>= λ _. k

pub ok-inj {ℓ} : {A : Type ℓ} {a b : A} → ok a ≡ ok b → a ≡ b
ok-inj e = cc

-- A chain that ends well does so at each link.
pub bind_ok :
    {A B : Type 0} (m : Result A) (f : A → Result B) (b : B)
    → (m >>= f) ≡ ok b
    → (x : A) × (m ≡ ok x) × (f x ≡ ok b)
bind_ok (ok x) f b h = (x, refl, h)
bind_ok (err e) f b h = cc

-- `strings.Join`
unfoldable pub join : String → List String → String
join sep [] = ""
join sep (s ∷ []) = s
join sep (s ∷ t ∷ rest) = s <> sep <> join sep (t ∷ rest)

-- `ValidationErrors.Error`
unfoldable pub validation_text : List String → String
unfolding join
validation_text errs = sentinel_text conformance <> ": " <> join "; " errs

-- A validator returns its list of failures as an error that unwraps to `ErrConformance`.
abbrev pub conclude : List String → Result (Unit {0})
conclude [] = ok tt
conclude (e ∷ es) = err (record { chain = conformance ∷ []; text = validation_text (e ∷ es) })

abbrev pub require : Bool → String → List String
require true message = []
require false message = message ∷ []
