-- ===== src/Lifecycle/Errors.antt =====
-- `ErrorCode` and `providerOperationError` of internal/lifecycle.
use mutandae.Prelude.{
  ◌≡◌, refl, true, false, inl, inr, Bool-cases, Option, none, some, [], ◌∷◌, if◌then◌else◌, ◌<>◌,
}
use mutandae.Protocol.{
  ErrorCode, no_code, not_found_code, invalid_transition_code, already_retired_code, conflict,
  rotation_in_progress_code, provider_failure_code, forbidden_code, conformance_failure, internal,
}
use mutandae.Protocol.Errors.{
  Error, errors_is, wrap, not_found, invalid_transition, already_retired, not_retired,
  rotation_in_progress, provider_failure, forbidden, confirmation_needed, conformance,
}

-- The cases of the `switch`, in order; a nil error has no code.
unfoldable pub error_code : Option Error → ErrorCode
error_code none = no_code
error_code (some e) =
    if errors_is e not_found
    then not_found_code
    else if errors_is e invalid_transition
    then invalid_transition_code
    else if errors_is e already_retired
    then already_retired_code
    else if errors_is e not_retired
    then conflict
    else if errors_is e rotation_in_progress
    then rotation_in_progress_code
    else if errors_is e provider_failure
    then provider_failure_code
    else if errors_is e forbidden
    then forbidden_code
    else if errors_is e confirmation_needed
    then conflict
    else if errors_is e conformance
    then conformance_failure
    else internal

-- A forbidden operation is reported as it is, and any other failure as the provider's.
unfoldable pub provider_operation_error : Error → Error
provider_operation_error e = if errors_is e forbidden then e else wrap provider_failure e.text

-- How the failure `x` of an adapter is reported as `e`.
pub data Reported (x e : Error) : Type 0 where
  passed_on : errors_is x forbidden ≡ true → e ≡ x → Reported x e
  wrapped :
      errors_is x forbidden ≡ false
      → e.chain ≡ provider_failure ∷ []
      → e.text ≡ "provider adapter failed: " <> x.text
      → Reported x e

pub provider_operation_error-Reported : (x : Error) → Reported x (provider_operation_error x)
unfolding provider_operation_error
provider_operation_error-Reported x = elim (Bool-cases (errors_is x forbidden)) [
  | inl e ↦ passed_on e (rw e refl)
  | inr e ↦ wrapped e (rw e refl) (rw e refl)
]
