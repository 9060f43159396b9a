-- ===== src/Provider/Simulators/Aws.antt =====
-- internal/provider/awssimulator.go.
pub mod Seeds
pub mod Plans
pub mod Retired
use mutandae.Prelude.{
  ℕ, ◌+◌, ◌-◌, ◌*◌, String, Bool, true, false, not, ◌||◌, Option, none, some, List, [], ◌∷◌, Dict,
  lookup, insert, is_some, ◌==◌, string_eq, if◌then◌else◌, trim_space, ◌<>◌, decimal, hex_032,
}
use mutandae.Protocol.{
  Time, Health, healthy, attention, active, retired, MachineIdentity, ProviderBinding,
  PlannedOperation,
}
use mutandae.Protocol.Errors.{Error, Result, ok, err, plain}
use mutandae.Protocol.Iso8601.{day}
use mutandae.Lifecycle.Env.{Call}
use mutandae.Lifecycle.Plans.{operation}
use mutandae.Protocol.Validation.{quote}
use mutandae.Provider.Multicloud.{CloudAdapter, Planned}
use mutandae.Provider.Scope.{
  Scope, scope_match, is_demo_scope, simulator_constructor_scope, forbidden_scope_error,
}
use mutandae.Provider.Simulators.{
  Seed, seed_name, policy_of_days, trimmed_or, unknown_id, cannot_rotate,
}

abbrev pub aws_kind : String
aws_kind = "aws-iam"

pub record AccessKey : Type 0 where
  pub key_id : String
  pub fingerprint : String
  pub location : String
  pub expires_at : Time

pub record IamUser : Type 0 where
  pub name : String
  pub environment : String
  pub team : String
  pub service : String
  pub purpose : String
  pub criticality : String
  pub policy_days : ℕ
  pub seed_health : Health
  pub last_rotated : Time
  pub disabled : Bool
  pub key : AccessKey

pub record AwsSimulator : Type 0 where
  pub account_id : String
  pub region : String
  pub now : Time
  pub scope : Scope
  pub users : Dict IamUser
  pub seq : ℕ

abbrev aws_binding : AwsSimulator → IamUser → ProviderBinding
aws_binding s user = record {
  provider = aws_kind;
  provider_id = user.name;
  tenant_id = "";
  object_id = "";
  region = s.region;
  account_id = s.account_id;
  project_id = "";
}

-- `toIdentity`
unfoldable pub aws_identity : AwsSimulator → IamUser → MachineIdentity
aws_identity s user = record {
  id = "";
  name = user.name;
  display_name = user.name;
  namespace = "";
  environment = user.environment;
  provider = aws_binding s user;
  ownership = record {
    team = user.team;
    service = user.service;
    purpose = user.purpose;
    criticality = user.criticality;
    contacts = (user.name <> "@aws.mutandae.example") ∷ [];
  };
  policy = policy_of_days user.policy_days;
  credential = record {
    kind = "access_key";
    location = user.key.location;
    fingerprint = user.key.fingerprint;
    key_id = user.key.key_id;
    delivery = "secret-manager";
  };
  state = if user.disabled then retired else active;
  health = user.seed_health;
  expires_at = user.key.expires_at;
  last_rotated_at = user.last_rotated;
  created_at = 0;
  updated_at = 0;
  metadata = [];
}

-- The loop of `Discover`; Go ranges over the map in any order.
unfoldable pub aws_enabled : AwsSimulator → Dict IamUser → List MachineIdentity
unfolding aws_identity
aws_enabled s [] = []
aws_enabled s ((name, user) ∷ users) =
    let rest = aws_enabled s users in
    if user.disabled || not (scope_match s.scope user.name)
    then rest
    else aws_identity s user ∷ rest

unfoldable pub aws_discover : Call AwsSimulator (List MachineIdentity)
unfolding aws_enabled
aws_discover s = (ok (aws_enabled s s.users), s)

abbrev aws_put : IamUser → AwsSimulator → AwsSimulator
aws_put user s = record s { users = insert user.name user s.users }

-- The user with the key of the next sequence number.
unfoldable pub aws_renewed : AwsSimulator → IamUser → ℕ → IamUser
aws_renewed s user seq = record user {
  key = record user.key {
    key_id = user.name <> "-access-key-" <> decimal seq;
    fingerprint = "sha256:" <> hex_032 (seq + 200);
    expires_at = s.now + user.policy_days * day;
  };
  last_rotated = s.now;
  seed_health = healthy;
}

-- The branches on `user.disabled`.
aws_rotate_enabled : AwsSimulator → IamUser → Bool → Result MachineIdentity × AwsSimulator
unfolding aws_renewed aws_identity
aws_rotate_enabled s user true = (err (cannot_rotate aws_kind user.name), s)
aws_rotate_enabled s user false =
    let seq = s.seq + 1 in
    let user' = aws_renewed s user seq in
    let s' = aws_put user' (record s { seq = seq }) in (ok (aws_identity s' user'), s')

aws_rotate_user : AwsSimulator → String → Option IamUser → Result MachineIdentity × AwsSimulator
unfolding aws_rotate_enabled
aws_rotate_user s name none = (err (unknown_id aws_kind name), s)
aws_rotate_user s name (some user) = aws_rotate_enabled s user user.disabled

-- The name under which a request looks for its user.
abbrev pub aws_name : MachineIdentity → String
aws_name v = trimmed_or v.provider.provider_id v.name

unfoldable pub aws_rotate : MachineIdentity → Call AwsSimulator MachineIdentity
unfolding aws_rotate_user
aws_rotate v s =
    if not (scope_match s.scope (aws_name v))
    then (err (forbidden_scope_error aws_kind (aws_name v) s.scope), s)
    else aws_rotate_user s (aws_name v) (lookup (aws_name v) s.users)

aws_retire_user : AwsSimulator → String → Option IamUser → Result MachineIdentity × AwsSimulator
unfolding aws_identity
aws_retire_user s name none = (err (unknown_id aws_kind name), s)
aws_retire_user s name (some user) =
    let user' = record user { disabled = true } in
    let s' = aws_put user' s in (ok (aws_identity s' user'), s')

unfoldable pub aws_retire : MachineIdentity → Call AwsSimulator MachineIdentity
unfolding aws_retire_user
aws_retire v s =
    if not (scope_match s.scope (aws_name v))
    then (err (forbidden_scope_error aws_kind (aws_name v) s.scope), s)
    else aws_retire_user s (aws_name v) (lookup (aws_name v) s.users)
