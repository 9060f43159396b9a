-- ===== src/Protocol/Models.antt =====
-- The objects of pkg/protocol/models.go that the lifecycle engine stores. A time is the number of
-- nanoseconds since Go's zero time, and a duration a number of nanoseconds.
use mutandae.Prelude.{ℕ, String, Bool, Option, List, Dict}
use mutandae.Protocol.Enums.{State, Health, Outcome, EventType, RotationStatus}

abbrev pub Time : Type 0
Time = ℕ

abbrev pub Duration : Type 0
Duration = ℕ

pub record ProviderBinding : Type 0 where
  pub provider : String
  pub provider_id : String
  pub tenant_id : String
  pub object_id : String
  pub region : String
  pub account_id : String
  pub project_id : String

pub record Ownership : Type 0 where
  pub team : String
  pub service : String
  pub purpose : String
  pub criticality : String
  pub contacts : List String

pub record LifecyclePolicy : Type 0 where
  pub renewal_period : String
  pub grace_period : String
  pub max_age : String
  pub approval_required : Bool

pub record CredentialReference : Type 0 where
  pub kind : String
  pub location : String
  pub fingerprint : String
  pub key_id : String
  pub delivery : String

-- A nil map and an empty one are read alike.
abbrev pub Metadata : Type 0
Metadata = Dict String

pub record PlannedOperation : Type 0 where
  pub op : String
  pub identity : String
  pub detail : String
  pub reversible : Bool
  pub destructive : Bool

-- A nil `Operations` is `none`.
pub record Plan : Type 0 where
  pub dry_run : Bool
  pub operations : Option (List PlannedOperation)
  pub expires_hint : String

pub record VaultReference : Type 0 where
  pub url : String
  pub secret_name : String
  pub version : String
  pub expires_at : Time
  pub owner_object_ids : List String

pub record MachineIdentity : Type 0 where
  pub id : String
  pub name : String
  pub display_name : String
  pub namespace : String
  pub environment : String
  pub provider : ProviderBinding
  pub ownership : Ownership
  pub policy : LifecyclePolicy
  pub credential : CredentialReference
  pub state : State
  pub health : Health
  pub expires_at : Time
  pub last_rotated_at : Time
  pub created_at : Time
  pub updated_at : Time
  pub metadata : Metadata

pub record LifecycleEvent : Type 0 where
  pub id : String
  pub identity_id : String
  pub event_type : EventType
  pub summary : String
  pub actor : String
  pub outcome : Outcome
  pub at : Time
  pub correlation_id : String
  pub run_id : String
  pub details : Metadata

-- `finished_at` is 0 and `outcome` is `none` until the run ends.
pub record RotationRun : Type 0 where
  pub id : String
  pub identity_id : String
  pub status : RotationStatus
  pub requested_by : String
  pub requested_at : Time
  pub started_at : Time
  pub finished_at : Time
  pub outcome : Option Outcome
  pub evidence : CredentialReference
  pub error : String

abbrev pub no_credential : CredentialReference
no_credential = record { kind = ""; location = ""; fingerprint = ""; key_id = ""; delivery = "" }

-- The objects of the interactive Azure integration.
pub record VaultConfiguration : Type 0 where
  pub url : String
  pub secret_prefix : String
  pub owner_object_ids : List String

pub record AzureIntegrationRequest : Type 0 where
  pub tenant_id : String
  pub client_id : String
  pub client_secret : String
  pub vault : Option VaultConfiguration
  pub requested_by : String

pub record AzureIntegrationSession : Type 0 where
  pub id : String
  pub provider : String
  pub tenant_hint : String
  pub client_hint : String
  pub expires_at : Time
  pub vault_configured : Bool
  pub capabilities : List String

pub record AzureIntegrationEvent : Type 0 where
  pub id : String
  pub event_type : EventType
  pub correlation_id : String
  pub at : Time
  pub outcome : Outcome
  pub provider : String
  pub application_id : String
  pub details : Metadata

pub record OperationReceipt : Type 0 where
  pub id : String
  pub correlation_id : String
  pub event_published : Bool
  pub event : AzureIntegrationEvent

pub record AzureCredential : Type 0 where
  pub key_id : String
  pub display_name : String
  pub start_at : Time
  pub expires_at : Time
  pub hint : String
  pub vault : Option VaultReference

pub record AzureApplication : Type 0 where
  pub object_id : String
  pub application_id : String
  pub display_name : String
  pub created_at : Time
  pub owned_by_calling_client : Bool
  pub credentials : List AzureCredential

pub record AzureSecretResult : Type 0 where
  pub credential : AzureCredential
  pub secret_text : String
  pub one_time : Bool
  pub vault : Option VaultReference
