-- ===== src/Provider/Simulators/Aws/Plans.antt =====
-- The planners of internal/provider/awssimulator.go, and the adapter.
use mutandae.Prelude.{
  String, true, false, not, none, some, List, [], ◌∷◌, lookup, is_some, ◌==◌, string_eq,
  if◌then◌else◌, trim_space, ◌<>◌,
}
use mutandae.Protocol.{MachineIdentity, PlannedOperation}
use mutandae.Protocol.Errors.{ok, err, plain}
use mutandae.Lifecycle.Env.{Call}
use mutandae.Lifecycle.Plans.{operation}
use mutandae.Provider.Multicloud.{CloudAdapter, Planned}
use mutandae.Provider.Scope.{scope_match, forbidden_scope_error}
use mutandae.Provider.Simulators.{unknown_id}
use mutandae.Provider.Simulators.Aws.{AwsSimulator, aws_discover, aws_kind, aws_retire, aws_rotate}

aws_plan : String → (String → List PlannedOperation) → String → Call AwsSimulator Planned
aws_plan verb steps id s =
    let name = trim_space id in
    if name == ""
    then (err (plain (aws_kind <> ": plan " <> verb <> " requires an identity id")), s)
    else if not (scope_match s.scope name)
    then (err (forbidden_scope_error aws_kind name s.scope), s)
    else if is_some (lookup name s.users)
    then (ok (some (steps name)), s)
    else (err (unknown_id aws_kind name), s)

unfoldable pub aws_plan_rotate : String → Call AwsSimulator Planned
unfolding aws_plan
aws_plan_rotate = aws_plan "rotate" λ name.
    operation "aws.create_access_key" name
      "Create a replacement access key and make it the active credential." true false
    ∷ operation "aws.revoke_old_access_key" name
        "Revoke the previous access key after the replacement is available." false true
    ∷ []

unfoldable pub aws_plan_retire : String → Call AwsSimulator Planned
unfolding aws_plan
aws_plan_retire = aws_plan "retire" λ name.
    operation "aws.disable_user" name
      "Disable the IAM user so it is no longer governed or discoverable." true true
    ∷ []

abbrev aws_plan_id : MachineIdentity → String
aws_plan_id v = if v.provider.provider_id == "" then v.name else v.provider.provider_id

-- The simulator among the adapters of a composite: it neither creates nor has a vault.
unfoldable pub aws_adapter : CloudAdapter AwsSimulator
aws_adapter = record {
  kind = aws_kind;
  discover = aws_discover;
  rotate = aws_rotate;
  retire = aws_retire;
  plan_rotate = some aws_plan_rotate;
  plan_retire = some aws_plan_retire;
  plan_rotate_identity = some λ v. aws_plan_rotate (aws_plan_id v);
  plan_retire_identity = some λ v. aws_plan_retire (aws_plan_id v);
  create = none;
  vault = none;
  consume_one_time_secret = none;
}
