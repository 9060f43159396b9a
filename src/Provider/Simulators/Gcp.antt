-- ===== src/Provider/Simulators/Gcp.antt =====
-- internal/provider/gcpsimulator.go.
pub mod Seeds
pub mod Plans
pub mod Retired
use mutandae.Prelude.{
  ℕ, ◌+◌, ◌-◌, ◌*◌, String, Bool, true, false, not, ◌&&◌, ◌||◌, Option, none, some, List, [], ◌∷◌,
  Dict, lookup, insert, is_some, ◌==◌, string_eq, if◌then◌else◌, trim_space, ◌<>◌, decimal,
  decimal_fixed, hex_032,
}
use mutandae.Protocol.{
  Time, Health, healthy, attention, active, retired, MachineIdentity, ProviderBinding,
  PlannedOperation,
}
use mutandae.Protocol.Errors.{Error, Result, ok, err, plain}
use mutandae.Protocol.Iso8601.{day}
use mutandae.Lifecycle.Env.{Call}
use mutandae.Lifecycle.Plans.{operation}
use mutandae.Protocol.Validation.{quote}
use mutandae.Provider.Multicloud.{CloudAdapter, Planned}
use mutandae.Provider.Scope.{
  Scope, scope_match, is_demo_scope, simulator_constructor_scope, forbidden_scope_error,
  demo_scope_pattern, is_empty,
}
use mutandae.Provider.Simulators.{
  Seed, seed_name, policy_of_days, trimmed_or, unknown_id, cannot_rotate,
}

abbrev pub gcp_kind : String
gcp_kind = "gcp-iam"

pub record GcpCredential : Type 0 where
  pub key_id : String
  pub fingerprint : String
  pub location : String
  pub expires_at : Time

pub record ServiceAccount : Type 0 where
  pub unique_id : String
  pub name : String
  pub email : String
  pub environment : String
  pub team : String
  pub service : String
  pub purpose : String
  pub criticality : String
  pub policy_days : ℕ
  pub seed_health : Health
  pub last_rotated : Time
  pub disabled : Bool
  pub key : GcpCredential

pub record GcpSimulator : Type 0 where
  pub project_id : String
  pub region : String
  pub now : Time
  pub scope : Scope
  pub accounts : Dict ServiceAccount
  pub seq : ℕ

-- `uniqueID`
abbrev unique_id_of : ℕ → String
unique_id_of n = decimal_fixed 21 n

-- `email`
abbrev email_of : String → String → String
email_of project name = name <> "@" <> project <> ".iam.gserviceaccount.com"

abbrev gcp_location : String → String → String → String
gcp_location project email key_id =
    "iam://projects/" <> project <> "/serviceAccounts/" <> email <> "/keys/" <> key_id

abbrev gcp_binding : GcpSimulator → ServiceAccount → ProviderBinding
gcp_binding s acct = record {
  provider = gcp_kind;
  provider_id = acct.unique_id;
  tenant_id = "";
  object_id = "";
  region = s.region;
  account_id = "";
  project_id = s.project_id;
}

-- `toIdentity`
unfoldable pub gcp_identity : GcpSimulator → ServiceAccount → MachineIdentity
gcp_identity s acct = record {
  id = "";
  name = acct.name;
  display_name = acct.name;
  namespace = "";
  environment = acct.environment;
  provider = gcp_binding s acct;
  ownership = record {
    team = acct.team;
    service = acct.service;
    purpose = acct.purpose;
    criticality = acct.criticality;
    contacts = acct.email ∷ [];
  };
  policy = policy_of_days acct.policy_days;
  credential = record {
    kind = "service_account_key";
    location = acct.key.location;
    fingerprint = acct.key.fingerprint;
    key_id = acct.key.key_id;
    delivery = "secret-manager";
  };
  state = if acct.disabled then retired else active;
  health = acct.seed_health;
  expires_at = acct.key.expires_at;
  last_rotated_at = acct.last_rotated;
  created_at = 0;
  updated_at = 0;
  metadata = [];
}

-- The loop of `Discover`; Go ranges over the map in any order.
unfoldable pub gcp_enabled : GcpSimulator → Dict ServiceAccount → List MachineIdentity
unfolding gcp_identity
gcp_enabled s [] = []
gcp_enabled s ((id, acct) ∷ accounts) =
    let rest = gcp_enabled s accounts in
    if acct.disabled || not (scope_match s.scope acct.email)
    then rest
    else gcp_identity s acct ∷ rest

unfoldable pub gcp_discover : Call GcpSimulator (List MachineIdentity)
unfolding gcp_enabled
gcp_discover s = (ok (gcp_enabled s s.accounts), s)

abbrev gcp_put : ServiceAccount → GcpSimulator → GcpSimulator
gcp_put acct s = record s { accounts = insert acct.unique_id acct s.accounts }

-- The account with the key of the next sequence number.
unfoldable pub gcp_renewed : GcpSimulator → ServiceAccount → ℕ → ServiceAccount
gcp_renewed s acct seq =
    let key_id = acct.name <> "-service-key-" <> decimal seq in
    record acct {
      key = record acct.key {
        key_id = key_id;
        fingerprint = "sha256:" <> hex_032 (seq + 100);
        location = gcp_location s.project_id acct.email key_id;
        expires_at = s.now + acct.policy_days * day;
      };
      last_rotated = s.now;
      seed_health = healthy;
    }

-- The branches on `acct.disabled`.
gcp_rotate_enabled : GcpSimulator → ServiceAccount → Bool → Result MachineIdentity × GcpSimulator
unfolding gcp_renewed gcp_identity
gcp_rotate_enabled s acct true = (err (cannot_rotate gcp_kind acct.name), s)
gcp_rotate_enabled s acct false =
    let seq = s.seq + 1 in
    let acct' = gcp_renewed s acct seq in
    let s' = gcp_put acct' (record s { seq = seq }) in (ok (gcp_identity s' acct'), s')

gcp_rotate_found :
    GcpSimulator → String → Option ServiceAccount → Result MachineIdentity × GcpSimulator
unfolding gcp_rotate_enabled
gcp_rotate_found s id none = (err (unknown_id gcp_kind id), s)
gcp_rotate_found s id (some acct) =
    if not (scope_match s.scope acct.email)
    then (err (forbidden_scope_error gcp_kind acct.email s.scope), s)
    else gcp_rotate_enabled s acct acct.disabled

-- The name that a request is checked by.
abbrev pub gcp_name : MachineIdentity → String
gcp_name v = trimmed_or v.name v.provider.provider_id

unfoldable pub gcp_rotate : MachineIdentity → Call GcpSimulator MachineIdentity
unfolding gcp_rotate_found
gcp_rotate v s =
    if not (scope_match s.scope (gcp_name v))
    then (err (forbidden_scope_error gcp_kind (gcp_name v) s.scope), s)
    else gcp_rotate_found s v.provider.provider_id (lookup v.provider.provider_id s.accounts)

gcp_retire_found :
    GcpSimulator → String → Option ServiceAccount → Result MachineIdentity × GcpSimulator
unfolding gcp_identity
gcp_retire_found s id none = (err (unknown_id gcp_kind id), s)
gcp_retire_found s id (some acct) =
    let acct' = record acct { disabled = true } in
    let s' = gcp_put acct' s in
    if not (scope_match s.scope acct.email)
    then (err (forbidden_scope_error gcp_kind acct.email s.scope), s)
    else (ok (gcp_identity s' acct'), s')

unfoldable pub gcp_retire : MachineIdentity → Call GcpSimulator MachineIdentity
unfolding gcp_retire_found
gcp_retire v s =
    if not (scope_match s.scope (gcp_name v))
    then (err (forbidden_scope_error gcp_kind (gcp_name v) s.scope), s)
    else gcp_retire_found s v.provider.provider_id (lookup v.provider.provider_id s.accounts)
