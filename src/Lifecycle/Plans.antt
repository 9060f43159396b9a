-- ===== src/Lifecycle/Plans.antt =====
-- `plan` of internal/lifecycle/lifecycle.go: the dry run of a rotation or a retirement.
use mutandae.Prelude.{String, Bool, true, false, Option, some, List, [], ◌∷◌, if◌then◌else◌}
use mutandae.Protocol.{MachineIdentity, PlannedOperation, Plan}
use mutandae.Protocol.Errors.{Result, ok, err, wrap, conformance}
use mutandae.Protocol.Validation.{is_blank, validate_plan}
use mutandae.Lifecycle.Env.{Env, Call, Planner, identity_planner, id_planner, no_planner}
use mutandae.Lifecycle.Errors.{provider_operation_error}
use mutandae.Lifecycle.Store.Monad.{Action}

abbrev pub operation : String → String → String → Bool → Bool → PlannedOperation
operation op name detail reversible destructive = record {
  op = op;
  identity = name;
  detail = detail;
  reversible = reversible;
  destructive = destructive;
}

-- The plan of the store itself, for an adapter that does not plan.
unfoldable pub fallback_operations : String → Bool → List PlannedOperation
fallback_operations name true =
    operation "lifecycle.create_credential" name
      "Create a replacement credential without applying provider changes." true false
    ∷ operation "lifecycle.verify_credential" name
        "Verify the replacement credential before it becomes current." true false
    ∷ operation "lifecycle.revoke_previous_credential" name
        "Revoke the previous credential after successful verification." false true
    ∷ []
fallback_operations name false =
    operation "lifecycle.revoke_credential" name
      "Revoke the governed credential without applying provider changes." false true
    ∷ operation "lifecycle.mark_retired" name
        "Mark the identity retired after provider decommissioning succeeds." false true
    ∷ []

-- The id that a planner without the identity gets.
abbrev planning_id : MachineIdentity → String
planning_id v = if is_blank v.provider.provider_id then v.name else v.provider.provider_id

abbrev plan_of : Option (List PlannedOperation) → Plan
plan_of operations = record {
  dry_run = true;
  operations = operations;
  expires_hint = "Re-plan immediately before applying; provider state may change.";
}

check_plan : Plan → Result (Unit {0}) → Result Plan
check_plan plan (ok _) = ok plan
check_plan plan (err e) = err (wrap conformance e.text)

settle_plan : Result (Option (List PlannedOperation)) → Result Plan
unfolding check_plan
settle_plan (ok operations) = check_plan (plan_of operations) (validate_plan (plan_of operations))
settle_plan (err e) = err (provider_operation_error e)

module _ {W : Type 0} where
  planned_operations : Planner W → MachineIdentity → Bool → Call W (Option (List PlannedOperation))
  unfolding fallback_operations
  planned_operations (identity_planner rotate retire) v true = rotate v
  planned_operations (identity_planner rotate retire) v false = retire v
  planned_operations (id_planner rotate retire) v true = rotate (planning_id v)
  planned_operations (id_planner rotate retire) v false = retire (planning_id v)
  planned_operations no_planner v rotating =
      λ w. (ok (some (fallback_operations v.name rotating)), w)

  unfoldable pub plan : Env W → MachineIdentity → Bool → Action W Plan
  unfolding planned_operations settle_plan
  plan E v rotating s =
      let (r, w) = planned_operations E.adapter.planner v rotating s.world in
      (settle_plan r, record s { world = w })
