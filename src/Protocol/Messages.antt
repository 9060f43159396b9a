-- ===== src/Protocol/Messages.antt =====
-- The envelopes of pkg/protocol/messages.go for the lifecycle operations. `APIVersion` is a constant
-- and `Error` is never set by the store, so both are left out.
use mutandae.Prelude.{String, Bool, Option, List, ◌==◌, string_eq, if◌then◌else◌}
use mutandae.Protocol.Enums.{actor_operator, actor_control_plane}
use mutandae.Protocol.Models.{
  ProviderBinding, Ownership, LifecyclePolicy, CredentialReference, Metadata, MachineIdentity,
  LifecycleEvent, RotationRun, Plan, VaultReference, Time,
}

pub record RegisterRequest : Type 0 where
  pub id : String
  pub name : String
  pub display_name : String
  pub namespace : String
  pub environment : String
  pub provider : ProviderBinding
  pub ownership : Ownership
  pub policy : LifecyclePolicy
  pub credential : CredentialReference
  pub expires_at : Time
  pub requested_by : String

pub record RegisterResponse : Type 0 where
  pub identity : MachineIdentity
  pub events : List LifecycleEvent

pub record RotateRequest : Type 0 where
  pub id : String
  pub requested_by : String
  pub reason : String
  pub metadata : Metadata
  pub dry_run : Bool

-- A dry run has a plan and no rotation; `MarshalJSON` drops the zero rotation then.
pub record RotateResponse : Type 0 where
  pub identity : MachineIdentity
  pub rotation : Option RotationRun
  pub events : List LifecycleEvent
  pub plan : Option Plan

pub record RetireRequest : Type 0 where
  pub id : String
  pub requested_by : String
  pub reason : String
  pub confirm : Bool
  pub dry_run : Bool

pub record RetireResponse : Type 0 where
  pub identity : MachineIdentity
  pub events : List LifecycleEvent
  pub plan : Option Plan

pub record DeleteRequest : Type 0 where
  pub id : String
  pub requested_by : String
  pub reason : String
  pub confirm : Bool

pub record DeleteResponse : Type 0 where
  pub deleted : Bool
  pub identity : MachineIdentity
  pub events : List LifecycleEvent

pub record ProvisionRequest : Type 0 where
  pub provider : String
  pub purpose : String
  pub requested_by : String

pub record ProvisionResponse : Type 0 where
  pub identity : MachineIdentity
  pub one_time_secret : String
  pub key_id : String
  pub instructions : String
  pub vault : Option VaultReference

pub record UseRequest : Type 0 where
  pub id : String
  pub requested_by : String
  pub version : String

pub record UseResponse : Type 0 where
  pub identity : MachineIdentity
  pub key_id : String
  pub secret : String
  pub vault : VaultReference

-- `RequestedByOrDefault` of the requests whose default actor is the operator.
abbrev pub or_operator : String → String
or_operator requested_by = if requested_by == "" then actor_operator else requested_by

-- The same of `RegisterRequest` and `ProvisionRequest`.
abbrev pub or_control_plane : String → String
or_control_plane requested_by = if requested_by == "" then actor_control_plane else requested_by

pub record AzureSecretCreateRequest : Type 0 where
  pub application_object_id : String
  pub display_name : String
  pub expires_at : Time
  pub store_in_vault : Bool

pub record AzureSecretReadRequest : Type 0 where
  pub application_object_id : String
  pub key_id : String
  pub version : String

pub record AzureSecretInvalidateRequest : Type 0 where
  pub application_object_id : String
  pub key_id : String
  pub version : String
