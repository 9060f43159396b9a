-- ===== src/Provider/Simulators/Azure.antt =====
-- internal/provider/azuresimulator.go.
pub mod Seeds
pub mod Plans
pub mod Retired
use mutandae.Prelude.{
  ℕ, ◌+◌, ◌-◌, ◌*◌, String, Bool, true, false, not, ◌&&◌, ◌||◌, Option, none, some, List, [], ◌∷◌,
  Dict, lookup, insert, is_some, ◌==◌, string_eq, if◌then◌else◌, trim_space, ◌<>◌, decimal,
  decimal_fixed, hex_032,
}
use mutandae.Protocol.{
  Time, Health, healthy, attention, active, retired, MachineIdentity, ProviderBinding,
  PlannedOperation,
}
use mutandae.Protocol.Errors.{Error, Result, ok, err, plain}
use mutandae.Protocol.Iso8601.{day}
use mutandae.Lifecycle.Env.{Call}
use mutandae.Lifecycle.Plans.{operation}
use mutandae.Protocol.Validation.{quote}
use mutandae.Provider.Multicloud.{CloudAdapter, Planned}
use mutandae.Provider.Scope.{
  Scope, scope_match, is_demo_scope, simulator_constructor_scope, forbidden_scope_error,
  demo_scope_pattern, is_empty,
}
use mutandae.Provider.Simulators.{
  Seed, seed_name, policy_of_days, trimmed_or, unknown_id, cannot_rotate,
}

abbrev pub azure_kind : String
azure_kind = "azure-entra"

pub record AppCredential : Type 0 where
  pub key_id : String
  pub fingerprint : String
  pub location : String
  pub expires_at : Time

pub record AppRegistration : Type 0 where
  pub object_id : String
  pub name : String
  pub display_name : String
  pub environment : String
  pub team : String
  pub service : String
  pub purpose : String
  pub criticality : String
  pub policy_days : ℕ
  pub seed_health : Health
  pub last_rotated : Time
  pub disabled : Bool
  pub cred : AppCredential

pub record AzureSimulator : Type 0 where
  pub tenant_id : String
  pub now : Time
  pub scope : Scope
  pub apps : Dict AppRegistration
  pub seq : ℕ

-- `objectID`
abbrev object_id_of : ℕ → String
object_id_of n = "00000000-0000-0000-0000-" <> decimal_fixed 12 n

abbrev azure_binding : AzureSimulator → AppRegistration → ProviderBinding
azure_binding s app = record {
  provider = azure_kind;
  provider_id = app.object_id;
  tenant_id = s.tenant_id;
  object_id = app.object_id;
  region = "westeurope";
  account_id = "";
  project_id = "";
}

-- `toIdentity`
unfoldable pub azure_identity : AzureSimulator → AppRegistration → MachineIdentity
azure_identity s app = record {
  id = "";
  name = app.name;
  display_name = app.display_name;
  namespace = "";
  environment = app.environment;
  provider = azure_binding s app;
  ownership = record {
    team = app.team;
    service = app.service;
    purpose = app.purpose;
    criticality = app.criticality;
    contacts = (app.name <> "@mutandae.example") ∷ [];
  };
  policy = policy_of_days app.policy_days;
  credential = record {
    kind = "client_secret";
    location = app.cred.location;
    fingerprint = app.cred.fingerprint;
    key_id = app.cred.key_id;
    delivery = "keyvault-ref";
  };
  state = if app.disabled then retired else active;
  health = app.seed_health;
  expires_at = app.cred.expires_at;
  last_rotated_at = app.last_rotated;
  created_at = 0;
  updated_at = 0;
  metadata = [];
}

-- The loop of `Discover`; Go ranges over the map in any order.
unfoldable pub azure_enabled : AzureSimulator → Dict AppRegistration → List MachineIdentity
unfolding azure_identity
azure_enabled s [] = []
azure_enabled s ((id, app) ∷ apps) =
    let rest = azure_enabled s apps in
    if app.disabled || not (scope_match s.scope app.display_name)
    then rest
    else azure_identity s app ∷ rest

unfoldable pub azure_discover : Call AzureSimulator (List MachineIdentity)
unfolding azure_enabled
azure_discover s = (ok (azure_enabled s s.apps), s)

abbrev azure_put : AppRegistration → AzureSimulator → AzureSimulator
azure_put app s = record s { apps = insert app.object_id app s.apps }

-- The application with the credential of the next sequence number.
unfoldable pub azure_renewed : AzureSimulator → AppRegistration → ℕ → AppRegistration
azure_renewed s app seq = record app {
  cred = record app.cred {
    key_id = app.name <> "-credential-" <> decimal seq;
    fingerprint = "sha256:" <> hex_032 (seq + 100);
    expires_at = s.now + app.policy_days * day;
  };
  last_rotated = s.now;
  seed_health = healthy;
}

-- The branches on `app.disabled`.
azure_rotate_enabled :
    AzureSimulator → AppRegistration → Bool → Result MachineIdentity × AzureSimulator
unfolding azure_renewed azure_identity
azure_rotate_enabled s app true = (err (cannot_rotate azure_kind app.name), s)
azure_rotate_enabled s app false =
    let seq = s.seq + 1 in
    let app' = azure_renewed s app seq in
    let s' = azure_put app' (record s { seq = seq }) in (ok (azure_identity s' app'), s')

azure_rotate_found :
    AzureSimulator → String → Option AppRegistration → Result MachineIdentity × AzureSimulator
unfolding azure_rotate_enabled
azure_rotate_found s id none = (err (unknown_id azure_kind id), s)
azure_rotate_found s id (some app) =
    if not (scope_match s.scope app.display_name)
    then (err (forbidden_scope_error azure_kind app.display_name s.scope), s)
    else azure_rotate_enabled s app app.disabled

-- The name that a request is checked by.
abbrev pub azure_name : MachineIdentity → String
azure_name v = trimmed_or v.name v.provider.provider_id

unfoldable pub azure_rotate : MachineIdentity → Call AzureSimulator MachineIdentity
unfolding azure_rotate_found
azure_rotate v s =
    if not (scope_match s.scope (azure_name v))
    then (err (forbidden_scope_error azure_kind (azure_name v) s.scope), s)
    else azure_rotate_found s v.provider.provider_id (lookup v.provider.provider_id s.apps)

azure_retire_found :
    AzureSimulator → String → Option AppRegistration → Result MachineIdentity × AzureSimulator
unfolding azure_identity
azure_retire_found s id none = (err (unknown_id azure_kind id), s)
azure_retire_found s id (some app) =
    let app' = record app { disabled = true } in
    let s' = azure_put app' s in
    if not (scope_match s.scope app.display_name)
    then (err (forbidden_scope_error azure_kind app.display_name s.scope), s)
    else (ok (azure_identity s' app'), s')

unfoldable pub azure_retire : MachineIdentity → Call AzureSimulator MachineIdentity
unfolding azure_retire_found
azure_retire v s =
    if not (scope_match s.scope (azure_name v))
    then (err (forbidden_scope_error azure_kind (azure_name v) s.scope), s)
    else azure_retire_found s v.provider.provider_id (lookup v.provider.provider_id s.apps)
