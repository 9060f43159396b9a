-- ===== src/Lifecycle/Env.antt =====
-- What the store is given: the interfaces of internal/lifecycle/adapter.go and repository.go and of
-- audit_sink.go. An implementation is a record of functions over a world `W`: the cloud, the vaults,
-- the database and the log. Nothing is assumed of what they return.
use mutandae.Prelude.{String, Option, List}
use mutandae.Protocol.{
  MachineIdentity, LifecycleEvent, RotationRun, PlannedOperation, ProvisionResponse, VaultReference,
}
use mutandae.Protocol.Errors.{Error, Result}
use Prim.Native.Nat.{ℕ}

-- A call that may fail.
abbrev pub Call : Type 0 → Type 0 → Type 0
Call W A = W → Result A × W

pub record Vault (W : Type 0) : Type 0 where
  pub store_secret : MachineIdentity → String → String → Call W VaultReference
  pub read_secret : MachineIdentity → String → String → Call W (String × VaultReference)
  pub revoke_secret : MachineIdentity → String → Call W VaultReference

-- The planning interface that the adapter satisfies: `IdentityPlanner`, else `Planner`, else none.
-- A nil slice of operations is `none`.
pub data Planner (W : Type 0) : Type 0 where
  identity_planner :
      (MachineIdentity → Call W (Option (List PlannedOperation)))
      → (MachineIdentity → Call W (Option (List PlannedOperation)))
      → Planner W
  id_planner :
      (String → Call W (Option (List PlannedOperation)))
      → (String → Call W (Option (List PlannedOperation)))
      → Planner W
  no_planner : Planner W

-- The optional interfaces `Provisioner`, `VaultStore` and `OneTimeSecretor` are options.
pub record Adapter (W : Type 0) : Type 0 where
  pub discover : Call W (List MachineIdentity)
  pub rotate : MachineIdentity → Call W MachineIdentity
  pub retire : MachineIdentity → Call W MachineIdentity
  pub planner : Planner W
  pub create : Option (String → String → Call W ProvisionResponse)
  pub vault : Option (Vault W)
  pub consume_one_time_secret : Option (String → W → String × W)

pub record Snapshot : Type 0 where
  pub identities : List MachineIdentity
  pub events : List LifecycleEvent
  pub runs : List RotationRun
  pub next_event : ℕ
  pub next_run : ℕ

-- `Changes` and `Close` are left out.
pub record Repository (W : Type 0) : Type 0 where
  pub load : Call W Snapshot
  pub save : Snapshot → Call W (Unit {0})

pub record AuditSink (W : Type 0) : Type 0 where
  pub append : LifecycleEvent → Call W (Unit {0})

pub record Env (W : Type 0) : Type 0 where
  pub adapter : Adapter W
  pub repository : Option (Repository W)
  pub common_vault : Option (Vault W)
  pub audit_sink : Option (AuditSink W)
  pub audit_logger : Option (LifecycleEvent → Error → W → W)
