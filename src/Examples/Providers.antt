-- ===== src/Examples/Providers.antt =====
-- The properties of the provider layer, at concrete inputs.
use mutandae.Prelude.{
  ℕ, ◌≡◌, ◌↔◌, refl, true, false, some, List, [], ◌∷◌, ◌++◌, codes, trim_space, lookup, lower, hex,
}
use mutandae.Prelude.Glob.{no_slash, path_match}
use mutandae.Protocol.{MachineIdentity, healthy}
use mutandae.Protocol.Errors.{ok}
use mutandae.Provider.Scope.{demo_scope, scope_match, demo_scope_pattern, demo_prefix}
use mutandae.Provider.Scope.Names.{
  RandomBytes, build_scoped_name, build_scoped_name_lem, scoped_prefix, base_hint,
}
use mutandae.Provider.Scope.Prefix.{IsPlain, scope_match-prefix}
use mutandae.Provider.Multicloud.{
  CloudAdapter, MultiProvider, discovers, rotates, new_multi_provider, multi_discover, provider_run,
}
use mutandae.Provider.Multicloud.Routing.{RoutesTo, new_multi_provider_routes}
use mutandae.Provider.Multicloud.Merged.{first_of_key, one_view, multi_discover_lem}
use mutandae.Provider.Simulators.Aws.{
  IamUser, AwsSimulator, aws_identity, aws_enabled, aws_discover, aws_retire, aws_name,
}
use mutandae.Provider.Simulators.Aws.Plans.{aws_adapter}
use mutandae.Provider.Simulators.Aws.Retired as AwsRetired
use mutandae.Provider.Simulators.Azure.{
  AzureSimulator, AppRegistration, azure_identity, azure_retire,
}
use mutandae.Provider.Simulators.Azure.Plans.{azure_adapter}
use mutandae.Provider.Simulators.Azure.Retired as AzureRetired

demo-IsPlain : IsPlain (codes demo_prefix)
demo-IsPlain = (
  refl,
  (
    refl,
    (
      refl,
      (refl, (refl, (refl, (refl, (refl, (refl, (refl, (refl, (refl, (refl, (refl, tt))))))))))),
    ),
  ),
)

scope_match-prefix_example : (scope_match demo_scope "mutandae-demo-api" ≡ true) ↔ (
    (rest : List ℕ) × (codes "mutandae-demo-api" ≡ codes demo_prefix ++ rest)
    × (no_slash rest ≡ true))
unfolding trim_space
scope_match-prefix_example =
    scope_match-prefix demo_scope_pattern "mutandae-demo-api" (codes demo_prefix) refl demo-IsPlain

abbrev drawn : RandomBytes ℕ
drawn n w = (ok (171 ∷ 205 ∷ []), w)

named : (build_scoped_name drawn demo_scope "API" 4 0).0 ≡ ok "mutandae-demo-api-abcd"
unfolding build_scoped_name scoped_prefix base_hint scope_match path_match trim_space lower hex
named = refl

build_scoped_name_lem_example : scope_match demo_scope "mutandae-demo-api-abcd" ≡ true
build_scoped_name_lem_example =
    build_scoped_name_lem drawn demo_scope "API" 4 0 "mutandae-demo-api-abcd" named

abbrev deployer : IamUser
deployer = record {
  name = "mutandae-demo-deployer";
  environment = "production";
  team = "orders";
  service = "deploy";
  purpose = "deploys";
  criticality = "high";
  policy_days = 90;
  seed_health = healthy;
  last_rotated = 0;
  disabled = false;
  key = record { key_id = "k1"; fingerprint = "f"; location = "l"; expires_at = 5 };
}

abbrev account : AwsSimulator
account = record {
  account_id = "1";
  region = "eu-west-1";
  now = 10;
  scope = demo_scope;
  users = ("mutandae-demo-deployer", deployer) ∷ [];
  seq = 1;
}

abbrev seen_deployer : MachineIdentity
seen_deployer = aws_identity account (record deployer { disabled = true })

-- Another adapter over the same world, that has nothing.
abbrev idle_adapter : CloudAdapter AwsSimulator
idle_adapter = record aws_adapter { kind = "gcp-iam"; discover = λ s. (ok [], s) }

abbrev both : MultiProvider AwsSimulator
both = record { adapters = idle_adapter ∷ aws_adapter ∷ [] }

accepted : new_multi_provider (some idle_adapter ∷ some aws_adapter ∷ []) ≡ ok both
unfolding new_multi_provider trim_space aws_adapter
accepted = refl

new_multi_provider_routes_example : RoutesTo both aws_adapter (aws_identity account deployer)
unfolding aws_adapter aws_identity trim_space
new_multi_provider_routes_example =
    new_multi_provider_routes (some idle_adapter ∷ some aws_adapter ∷ []) both (idle_adapter ∷ [])
      [] aws_adapter (aws_identity account deployer) accepted refl refl refl

multi_discover_lem_example :
    multi_discover both account
    ≡ (ok (first_of_key (one_view ([] ∷ aws_enabled account account.users ∷ []))), account)
unfolding aws_adapter aws_discover
multi_discover_lem_example =
    multi_discover_lem both ([] ∷ aws_enabled account account.users ∷ []) account account
      (account, refl, (account, refl, refl))

account-Sound : AwsRetired.Sound account
unfolding lookup
account-Sound = record { keyed = (refl, tt); named = (refl, tt) }

aws_retired : (aws_retire seen_deployer account).0 ≡ ok seen_deployer
unfolding aws_retire aws_identity trim_space scope_match path_match lookup
aws_retired = refl

aws_retired_lem_example : AwsRetired.Gone (aws_name seen_deployer) (
    provider_run aws_adapter
      (rotates seen_deployer ∷ discovers ∷ [])
      (aws_retire seen_deployer account).1)
aws_retired_lem_example =
    AwsRetired.aws_retired_lem seen_deployer account seen_deployer
      (rotates seen_deployer ∷ discovers ∷ []) account-Sound aws_retired

abbrev payments : AppRegistration
payments = record {
  object_id = "o1";
  name = "mutandae-demo-payments";
  display_name = "mutandae-demo-payments";
  environment = "production";
  team = "payments";
  service = "authorization";
  purpose = "authorizes";
  criticality = "high";
  policy_days = 90;
  seed_health = healthy;
  last_rotated = 0;
  disabled = false;
  cred = record { key_id = "k1"; fingerprint = "f"; location = "l"; expires_at = 5 };
}

abbrev tenant : AzureSimulator
tenant = record {
  tenant_id = "t1";
  now = 10;
  scope = demo_scope;
  apps = ("o1", payments) ∷ [];
  seq = 1;
}

abbrev seen_payments : MachineIdentity
seen_payments = azure_identity tenant (record payments { disabled = true })

tenant-Sound : AzureRetired.Sound tenant
unfolding lookup
tenant-Sound = record { keyed = (refl, tt); own = (refl, tt) }

azure_retired : (azure_retire seen_payments tenant).0 ≡ ok seen_payments
unfolding azure_retire azure_identity trim_space scope_match path_match lookup
azure_retired = refl

azure_retired_lem_example : AzureRetired.Gone seen_payments.provider.provider_id (
    provider_run azure_adapter
      (rotates seen_payments ∷ discovers ∷ [])
      (azure_retire seen_payments tenant).1)
azure_retired_lem_example =
    AzureRetired.azure_retired_lem seen_payments tenant seen_payments
      (rotates seen_payments ∷ discovers ∷ []) tenant-Sound azure_retired
