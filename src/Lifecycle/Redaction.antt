-- ===== src/Lifecycle/Redaction.antt =====
-- The redaction of audit details in internal/lifecycle/audit_sink.go, and the test of
-- internal/lifecycle/integration.go on what is published.
pub mod Clean
use mutandae.Prelude.{
  ℕ, String, Bool, true, false, not, ◌||◌, List, [], ◌∷◌, Dict, ◌==◌, string_eq, nat_eq,
  if◌then◌else◌, any, codes, to_lower, contains,
}
use mutandae.Protocol.{LifecycleEvent, AzureIntegrationEvent, Metadata}
use mutandae.Protocol.Errors.{Result, ok, err, plain}

-- `strings.NewReplacer("_", "", "-", "", " ", "").Replace`
squeeze : List ℕ → List ℕ
squeeze [] = []
squeeze (c ∷ s) =
    let rest = squeeze s in if c == b'_' || (c == b'-' || c == b' ') then rest else c ∷ rest

same_codes : List ℕ → List ℕ → Bool
same_codes [] [] = true
same_codes (c ∷ s) (d ∷ t) = let rest = same_codes s t in if c == d then rest else false
same_codes _ _ = false

abbrev sensitive_parts : List String
sensitive_parts =
    "secrettext" ∷ "clientsecret" ∷ "privatekey" ∷ "awssecretaccesskey" ∷ "password" ∷ "accesstoken"
    ∷ []

unfoldable pub sensitive_audit_key : String → Bool
unfolding squeeze same_codes to_lower contains
sensitive_audit_key key =
    let normalized = to_lower (squeeze (codes key)) in
    any (λ part. contains normalized (codes part)) sensitive_parts
    || same_codes normalized (codes "token")
    || same_codes normalized (codes "secret")

abbrev markers : List String
markers =
    "bearer " ∷ "client_secret" ∷ "clientsecret" ∷ "secret_text" ∷ "secrettext" ∷ "private_key"
    ∷ "privatekey" ∷ "aws_secret_access_key" ∷ "awssecretaccesskey" ∷ "password" ∷ "access_token"
    ∷ []

-- The test of the loop of `redactAuditText`.
unfoldable pub marked : String → Bool
unfolding to_lower contains
marked value = any (λ marker. contains (to_lower (codes value)) (codes marker)) markers

unfoldable pub redact_audit_text : String → String
redact_audit_text value = if marked value then "[REDACTED]" else value

-- A nil map and an empty one are read alike.
unfoldable pub redact_audit_details : Metadata → Metadata
redact_audit_details [] = []
redact_audit_details ((key, value) ∷ details) =
    let safe = redact_audit_details details in
    if sensitive_audit_key key then safe else (key, redact_audit_text value) ∷ safe

unfoldable pub redact_lifecycle_event : LifecycleEvent → LifecycleEvent
redact_lifecycle_event event = record event {
  summary = redact_audit_text event.summary;
  details = redact_audit_details event.details;
}

unfoldable pub redact_integration_event : AzureIntegrationEvent → AzureIntegrationEvent
redact_integration_event event = record event { details = redact_audit_details event.details }

-- The loop of `validateIntegrationEvent`. Go ranges over the map in any order, so which of the two
-- failures is reported first may differ, but not whether there is one.
validate_details : Metadata → Result (Unit {0})
validate_details [] = ok tt
validate_details ((key, value) ∷ details) =
    let rest = validate_details details in
    if sensitive_audit_key key
    then err (plain "integration event contains a forbidden secret-bearing detail")
    else if not (redact_audit_text value == value)
    then err (plain "integration event contains secret-bearing text")
    else rest

unfoldable pub validate_integration_event : AzureIntegrationEvent → Result (Unit {0})
unfolding validate_details
validate_integration_event event = validate_details event.details
