-- ===== src/Examples.antt =====
-- Concrete stores, collaborators and requests, and runs of the model on them.
pub mod Integrations
pub mod Providers
pub mod Stores
pub mod Sweeps
pub mod Requests
pub mod Rates
pub mod Access
pub mod Logins
pub mod Leases
pub mod Runs
pub mod Views
use mutandae.Prelude.{
  ℕ, ◌*◌, String, Bool, true, false, Option, none, some, List, [], ◌∷◌, get_or, ◌≡◌, ◌≢◌, ◌==◌,
  string_eq, eq_iff,
}
use mutandae.Protocol.{
  MachineIdentity, VaultReference, Metadata, Time, State, RotateRequest, RetireRequest,
  DeleteRequest, UseRequest, active, retired, healthy, no_credential,
}
use mutandae.Protocol.Errors.{Result, ok, err, bare, plain, vault_unsupported}
use mutandae.Protocol.Iso8601.{day}
use mutandae.Lifecycle.Env.{Env, Adapter, Vault, no_planner}
use mutandae.Lifecycle.Store.{empty_store, put_identity}
use mutandae.Lifecycle.Store.Monad.{Store, Sys}

pub apart : (a b : String) → (a == b) ≡ false → a ≢ b
apart a b e p = cc (e, (eq_iff a b).1 p)

-- An identity in the given state, under a policy of 90 days.
abbrev pub billing : State → MachineIdentity
billing st = record {
  id = "billing";
  name = "billing";
  display_name = "Billing";
  namespace = "finance";
  environment = "production";
  provider = record {
    provider = "azure";
    provider_id = "p1";
    tenant_id = "t1";
    object_id = "o1";
    region = "";
    account_id = "";
    project_id = "";
  };
  ownership = record {
    team = "finance";
    service = "billing";
    purpose = "invoices";
    criticality = "high";
    contacts = "a@example.org" ∷ [];
  };
  policy = record {
    renewal_period = "P90D";
    grace_period = "";
    max_age = "";
    approval_required = false;
  };
  credential = record no_credential { key_id = "k1" };
  state = st;
  health = healthy;
  expires_at = 40 * day;
  last_rotated_at = 0;
  created_at = 0;
  updated_at = 0;
  metadata = [];
}

abbrev pub copy : VaultReference
copy = record {
  url = "https://vault/s1";
  secret_name = "s1";
  version = "1";
  expires_at = 0;
  owner_object_ids = [];
}

abbrev pub World : Type 0
World = Unit {0}

-- A vault that works, one that is down, and one that is switched off.
abbrev pub working_vault : Vault World
working_vault = record {
  store_secret = λ v key secret w. (ok copy, w);
  read_secret = λ v key version w. (ok ("s3cret", copy), w);
  revoke_secret = λ v key w. (ok copy, w);
}

abbrev pub broken_vault : Vault World
broken_vault = record {
  store_secret = λ v key secret w. (err (plain "503"), w);
  read_secret = λ v key version w. (err (plain "503"), w);
  revoke_secret = λ v key w. (err (plain "503"), w);
}

abbrev pub unsupported_vault : Vault World
unsupported_vault = record {
  store_secret = λ v key secret w. (err (bare vault_unsupported), w);
  read_secret = λ v key version w. (err (bare vault_unsupported), w);
  revoke_secret = λ v key w. (err (bare vault_unsupported), w);
}

abbrev pub env_with : Vault World → Env World
env_with vault = record {
  adapter = record {
    discover = λ w. (ok (billing active ∷ []), w);
    rotate = λ v w. (ok (record v { credential = record no_credential { key_id = "k2" } }), w);
    retire = λ v w. (ok v, w);
    planner = no_planner;
    create = none;
    vault = some vault;
    consume_one_time_secret = some (λ provider w. ("s3cret", w));
  };
  repository = none;
  common_vault = some working_vault;
  audit_sink = none;
  audit_logger = none;
}

abbrev pub cloud : Env World
cloud = env_with working_vault

abbrev pub holding : State → Sys World
holding st = record { store = put_identity "billing" (billing st) empty_store; world = tt }

abbrev pub rotation : Bool → RotateRequest
rotation dry = record {
  id = "billing";
  requested_by = "ann";
  reason = "due";
  metadata = [];
  dry_run = dry;
}

abbrev pub retirement_request : Bool → RetireRequest
retirement_request confirm = record {
  id = "billing";
  requested_by = "ann";
  reason = "old";
  confirm = confirm;
  dry_run = false;
}

abbrev pub deletion : Bool → DeleteRequest
deletion confirm = record {
  id = "billing";
  requested_by = "ann";
  reason = "gone";
  confirm = confirm;
}

abbrev pub use_request : UseRequest
use_request = record { id = "billing"; requested_by = "ann"; version = "" }
