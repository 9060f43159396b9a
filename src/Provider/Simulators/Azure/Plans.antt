-- ===== src/Provider/Simulators/Azure/Plans.antt =====
-- The planners of internal/provider/azuresimulator.go, and the adapter.
use mutandae.Prelude.{
  String, Bool, true, false, not, none, some, List, [], ◌∷◌, Dict, ◌==◌, string_eq, if◌then◌else◌,
  trim_space, ◌<>◌,
}
use mutandae.Protocol.{MachineIdentity, PlannedOperation}
use mutandae.Protocol.Errors.{ok, err, plain}
use mutandae.Lifecycle.Env.{Call}
use mutandae.Lifecycle.Plans.{operation}
use mutandae.Protocol.Validation.{quote}
use mutandae.Provider.Multicloud.{CloudAdapter, Planned}
use mutandae.Provider.Scope.{scope_match, forbidden_scope_error}
use mutandae.Provider.Simulators.Azure.{
  AppRegistration, AzureSimulator, azure_discover, azure_kind, azure_retire, azure_rotate,
}

-- `appByName`
app_by_name : String → Dict AppRegistration → Bool
app_by_name name [] = false
app_by_name name ((k, app) ∷ apps) =
    let rest = app_by_name name apps in if app.display_name == name then true else rest

azure_plan : String → (String → List PlannedOperation) → String → Call AzureSimulator Planned
unfolding app_by_name
azure_plan verb steps id s =
    let name = trim_space id in
    if name == ""
    then (err (plain (azure_kind <> ": plan " <> verb <> " requires an identity id")), s)
    else if not (scope_match s.scope name)
    then (err (forbidden_scope_error azure_kind name s.scope), s)
    else if app_by_name name s.apps
    then (ok (some (steps name)), s)
    else (err (plain (azure_kind <> ": unknown application " <> quote name)), s)

unfoldable pub azure_plan_rotate : String → Call AzureSimulator Planned
unfolding azure_plan
azure_plan_rotate = azure_plan "rotate" λ name.
    operation "graph.addPassword" name "Add a replacement Microsoft Graph password credential." true
      false
    ∷ operation "graph.removePassword" name "Remove the rotated-out Graph password credential."
        false true
    ∷ []

unfoldable pub azure_plan_retire : String → Call AzureSimulator Planned
unfolding azure_plan
azure_plan_retire = azure_plan "retire" λ name.
    operation "graph.deleteApplication" name
      "Delete the application registration so its credentials can no longer authenticate." false
      true
    ∷ []

abbrev azure_plan_id : MachineIdentity → String
azure_plan_id v = if trim_space v.name == "" then v.provider.provider_id else v.name

-- The simulator among the adapters of a composite: it neither creates nor has a vault.
unfoldable pub azure_adapter : CloudAdapter AzureSimulator
azure_adapter = record {
  kind = azure_kind;
  discover = azure_discover;
  rotate = azure_rotate;
  retire = azure_retire;
  plan_rotate = some azure_plan_rotate;
  plan_retire = some azure_plan_retire;
  plan_rotate_identity = some λ v. azure_plan_rotate (azure_plan_id v);
  plan_retire_identity = some λ v. azure_plan_retire (azure_plan_id v);
  create = none;
  vault = none;
  consume_one_time_secret = none;
}
