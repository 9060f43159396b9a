-- ===== src/Protocol/Validation.antt =====
-- The conformance rules of pkg/protocol/validation.go. The pointers that the callers pass are never
-- nil; a failing rule adds its message.
use mutandae.Prelude.{
  ℕ, ◌+◌, String, Bool, not, ◌||◌, if◌then◌else◌, Option, none, some, List, [], ◌∷◌, ◌++◌, ◌==◌,
  string_eq, nat_eq, ◌<>◌, trim_space, decimal, true, false,
}
use mutandae.Protocol.Enums.{state_text, valid_state, health_text, valid_health}
use mutandae.Protocol.Errors.{
  Result, ok, err, conclude, require, wrap, conformance, validation_text,
}
use mutandae.Protocol.Models.{MachineIdentity, LifecycleEvent, RotationRun, PlannedOperation, Plan}
use mutandae.Protocol.Messages.{RotateRequest, RetireRequest}
use mutandae.Protocol.Iso8601.{parse_iso8601_duration}

abbrev pub is_ok {ℓ} : {A : Type ℓ} → Result A → Bool
is_ok (ok a) = true
is_ok (err e) = false

-- `fmt`'s `%q`, of a text with nothing to escape.
abbrev pub quote : String → String
quote s = "\"" <> s <> "\""

-- The empty text is allowed.
abbrev period_failures : String → List String
period_failures period =
    require (period == "" || is_ok (parse_iso8601_duration period))
      "policy.renewal_period is not a valid ISO-8601 duration"

unfoldable pub identity_failures : MachineIdentity → List String
identity_failures v =
    require (not (v.id == "")) "id is required"
    ++ (require (not (v.name == "")) "name is required"
        ++ (require (not (v.provider.provider == "")) "provider.provider is required"
            ++ (require (not (v.provider.provider_id == "")) "provider.provider_id is required"
                ++ (require (not (v.ownership.team == "")) "ownership.team is required"
                    ++ (require (not (v.ownership.service == "")) "ownership.service is required"
                        ++ (require (not (v.ownership.purpose == ""))
                              "ownership.purpose is required"
                            ++ (require (valid_state v.state)
                                  ("state " <> quote (state_text v.state) <> " is invalid")
                                ++ (require (valid_health v.health)
                                      ("health " <> quote (health_text v.health) <> " is invalid")
                                    ++ period_failures v.policy.renewal_period))))))))

unfoldable pub validate_identity : MachineIdentity → Result (Unit {0})
unfolding identity_failures
validate_identity v = conclude (identity_failures v)

-- `ValidOutcome` holds of each constructor of `Outcome`, and so is no test here.
unfoldable pub validate_event : LifecycleEvent → Result (Unit {0})
validate_event v = conclude (
    require (not (v.id == "")) "id is required"
    ++ (require (not (v.identity_id == "")) "identity_id is required"
        ++ (require (not (v.summary == "")) "summary is required"
            ++ (require (not (v.actor == "")) "actor is required"
                ++ require (not (v.at == 0)) "at is required"))))

unfoldable pub validate_rotation_run : RotationRun → Result (Unit {0})
validate_rotation_run v = conclude (
    require (not (v.id == "")) "id is required"
    ++ require (not (v.identity_id == "")) "identity_id is required")

abbrev pub is_blank : String → Bool
is_blank s = trim_space s == ""

unfoldable pub planned_operation_failures : PlannedOperation → List String
planned_operation_failures v =
    require (not (is_blank v.op)) "op is required"
    ++ (require (not (is_blank v.identity)) "identity is required"
        ++ require (not (is_blank v.detail)) "detail is required")

-- `ValidatePlannedOperation` of each operation, behind the number of those before it.
unfoldable pub operations_failures : ℕ → List PlannedOperation → List String
unfolding planned_operation_failures
operations_failures i [] = []
operations_failures i (v ∷ vs) =
    let rest = operations_failures (i + 1) vs in
    elim (planned_operation_failures v) [
      | [] ↦ rest
      | e ∷ es ↦ ("operations[" <> decimal i <> "]: " <> validation_text (e ∷ es)) ∷ rest
    ]

abbrev plan_operations_failures : Option (List PlannedOperation) → List String
plan_operations_failures none = "operations is required" ∷ []
plan_operations_failures (some vs) = operations_failures 0 vs

unfoldable pub validate_plan : Plan → Result (Unit {0})
unfolding operations_failures
validate_plan v = conclude (
    require v.dry_run "dry_run must be true"
    ++ (require (not (is_blank v.expires_hint)) "expires_hint is required"
        ++ plan_operations_failures v.operations))

abbrev require_id : String → Result (Unit {0})
require_id id = if is_blank id then err (wrap conformance "id is required") else ok tt

unfoldable pub validate_rotate_request : RotateRequest → Result (Unit {0})
validate_rotate_request v = require_id v.id

unfoldable pub validate_retire_request : RetireRequest → Result (Unit {0})
validate_retire_request v = require_id v.id
