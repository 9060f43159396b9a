-- ===== src/Provider/Simulators/Gcp/Plans.antt =====
-- The planners of internal/provider/gcpsimulator.go, and the adapter.
use mutandae.Prelude.{
  String, true, false, not, ◌||◌, Option, none, some, List, [], ◌∷◌, Dict, ◌==◌, string_eq,
  if◌then◌else◌, trim_space, ◌<>◌,
}
use mutandae.Protocol.{MachineIdentity, PlannedOperation}
use mutandae.Protocol.Errors.{ok, err, plain}
use mutandae.Lifecycle.Env.{Call}
use mutandae.Lifecycle.Plans.{operation}
use mutandae.Protocol.Validation.{quote}
use mutandae.Provider.Multicloud.{CloudAdapter, Planned}
use mutandae.Provider.Scope.{scope_match, forbidden_scope_error}
use mutandae.Provider.Simulators.Gcp.{
  GcpSimulator, ServiceAccount, gcp_discover, gcp_kind, gcp_retire, gcp_rotate,
}

-- `accountForPlan`
account_for_plan : String → Dict ServiceAccount → Option ServiceAccount
account_for_plan id [] = none
account_for_plan id ((k, acct) ∷ accounts) =
    let rest = account_for_plan id accounts in
    if acct.unique_id == id || (acct.name == id || acct.email == id) then some acct else rest

gcp_plan_found :
    (String → List PlannedOperation) → String → Option ServiceAccount → Call GcpSimulator Planned
gcp_plan_found steps name none s =
    (err (plain (gcp_kind <> ": unknown service account " <> quote name)), s)
gcp_plan_found steps name (some acct) s =
    if not (scope_match s.scope acct.email)
    then (err (forbidden_scope_error gcp_kind acct.email s.scope), s)
    else (ok (some (steps acct.email)), s)

gcp_plan : String → (String → List PlannedOperation) → String → Call GcpSimulator Planned
unfolding gcp_plan_found account_for_plan
gcp_plan verb steps id s =
    let name = trim_space id in
    if name == ""
    then (err (plain (gcp_kind <> ": plan " <> verb <> " requires an identity id")), s)
    else gcp_plan_found steps name (account_for_plan name s.accounts) s

unfoldable pub gcp_plan_rotate : String → Call GcpSimulator Planned
unfolding gcp_plan
gcp_plan_rotate = gcp_plan "rotate" λ email.
    operation "gcp.create_service_account_key" email
      "Create a replacement user-managed service-account key." true false
    ∷ operation "gcp.delete_key" email
        "Delete the rotated-out user-managed key after the replacement is available." false true
    ∷ []

unfoldable pub gcp_plan_retire : String → Call GcpSimulator Planned
unfolding gcp_plan
gcp_plan_retire = gcp_plan "retire" λ email.
    operation "gcp.delete_key" email
      "Delete every user-managed key so the service account has no downloadable credential." false
      true
    ∷ []

abbrev gcp_plan_id : MachineIdentity → String
gcp_plan_id v = if v.provider.provider_id == "" then v.name else v.provider.provider_id

-- The simulator among the adapters of a composite: it neither creates nor has a vault.
unfoldable pub gcp_adapter : CloudAdapter GcpSimulator
gcp_adapter = record {
  kind = gcp_kind;
  discover = gcp_discover;
  rotate = gcp_rotate;
  retire = gcp_retire;
  plan_rotate = some gcp_plan_rotate;
  plan_retire = some gcp_plan_retire;
  plan_rotate_identity = some λ v. gcp_plan_rotate (gcp_plan_id v);
  plan_retire_identity = some λ v. gcp_plan_retire (gcp_plan_id v);
  create = none;
  vault = none;
  consume_one_time_secret = none;
}
