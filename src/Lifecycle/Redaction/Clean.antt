-- ===== src/Lifecycle/Redaction/Clean.antt =====
-- What the redaction lets through.
use mutandae.Prelude.{
  ◌≤◌, String, ◌≡◌, ◌↔◌, refl, sym, ◌∙◌, ap, arith, false, Bool-cases, inl, inr, [], ◌∷◌, All,
  length, string_eq, eq_iff,
}
use mutandae.Protocol.{LifecycleEvent, AzureIntegrationEvent, Metadata}
use mutandae.Protocol.Errors.{ok}
use mutandae.Lifecycle.Redaction.{
  marked, redact_audit_text, redact_audit_details, redact_lifecycle_event, redact_integration_event,
  sensitive_audit_key, validate_details, validate_integration_event,
}

-- No key is sensitive and no value carries a marker.
abbrev pub CleanDetails : Metadata → Type 0
CleanDetails = All (λ entry. (sensitive_audit_key entry.0 ≡ false) × (marked entry.1 ≡ false))

marked-redact_audit_text : (value : String) → marked (redact_audit_text value) ≡ false
unfolding redact_audit_text
marked-redact_audit_text value = elim (Bool-cases (marked value)) [
  | inl e ↦ rw e redacted
  | inr e ↦ rw e e
]
  where
    redacted : marked "[REDACTED]" ≡ false
    redacted = unfold marked in refl

redact-CleanDetails : (details : Metadata) → CleanDetails (redact_audit_details details)
unfolding redact_audit_details
redact-CleanDetails [] = tt
redact-CleanDetails ((key, value) ∷ details) = elim (Bool-cases (sensitive_audit_key key)) [
  | inl e ↦ rw e (redact-CleanDetails details)
  | inr e ↦ rw e ((e, marked-redact_audit_text value), redact-CleanDetails details)
]

-- What is clean passes unchanged.
redact_of_CleanDetails :
    (details : Metadata) → CleanDetails details → redact_audit_details details ≡ details
unfolding redact_audit_details redact_audit_text
redact_of_CleanDetails [] h = refl
redact_of_CleanDetails ((key, value) ∷ details) ((k, v), h) =
    rw (k, v) (ap (λ rest. (key, value) ∷ rest) (redact_of_CleanDetails details h))

abbrev pub CleanEvent : LifecycleEvent → Type 0
CleanEvent event = (marked event.summary ≡ false) × CleanDetails event.details

-- A redacted event has no sensitive key among its details and no marked text in its details or
-- its summary, and an event that is so already is not changed.
pub redact_lifecycle_event_lem :
    (event : LifecycleEvent)
    → CleanEvent (redact_lifecycle_event event)
      × (CleanEvent event → redact_lifecycle_event event ≡ event)
unfolding redact_lifecycle_event redact_audit_text
redact_lifecycle_event_lem event = (
  (marked-redact_audit_text event.summary, redact-CleanDetails event.details),
  λ (text, details). rw (text, redact_of_CleanDetails event.details details) refl,
)

marked_of_kept : (value : String) → redact_audit_text value ≡ value → marked value ≡ false
marked_of_kept value kept = ap marked (sym kept) ∙ marked-redact_audit_text value

CleanDetails-of_validate :
    (details : Metadata) → validate_details details ≡ ok tt → CleanDetails details
unfolding validate_details
CleanDetails-of_validate [] h = tt
CleanDetails-of_validate ((key, value) ∷ details) h = ground (
  arith,
  eq_iff (redact_audit_text value) value,
  marked_of_kept value,
  CleanDetails-of_validate details,
)

length-redact : (details : Metadata) → length (redact_audit_details details) ≤ length details
unfolding redact_audit_details
length-redact [] = omega arith
length-redact ((key, value) ∷ details) = ground (arith, length-redact details)

validate_of_redact :
    (details : Metadata) → redact_audit_details details ≡ details → validate_details details ≡ ok tt
unfolding validate_details redact_audit_details
validate_of_redact [] h = refl
validate_of_redact ((key, value) ∷ details) h = ground (
  arith,
  length-redact details,
  ap length h,
  eq_iff (redact_audit_text value) value,
  validate_of_redact details,
)

-- An integration event is accepted for publication exactly if the publisher's redaction leaves it
-- as it is.
pub validate_integration_event_lem :
    (event : AzureIntegrationEvent)
    → (validate_integration_event event ≡ ok tt) ↔ (redact_integration_event event ≡ event)
unfolding validate_integration_event redact_integration_event
validate_integration_event_lem event = (
  λ h. rw (redact_of_CleanDetails event.details (CleanDetails-of_validate event.details h)) refl,
  λ h. validate_of_redact event.details (ap (λ (e : AzureIntegrationEvent). e.details) h),
)
