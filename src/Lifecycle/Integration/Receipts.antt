-- ===== src/Lifecycle/Integration/Receipts.antt =====
-- What the operations of a session in internal/lifecycle/integration.go answer with: replies, receipts
-- and the events behind them, and the references to vaults that a session remembers.
use mutandae.Prelude.{
  String, Bool, true, false, Option, none, some, [], ◌∷◌, Dict, lookup, map, ◌==◌, string_eq,
  if◌then◌else◌, ◌<>◌,
}
use mutandae.Protocol.{
  Time, EventType, Metadata, VaultReference, AzureIntegrationEvent, AzureApplication,
  AzureCredential, OperationReceipt, AzureSecretReadRequest, AzureSecretInvalidateRequest, success,
}
use mutandae.Protocol.Errors.{Error}
use mutandae.Lifecycle.Integration.{IntegrationSession, IntegrationManager}
use mutandae.Lifecycle.Integration.Sessions.{Live}

pub record Reply (A : Type 0) : Type 0 where
  pub value : Option A
  pub receipt : Option OperationReceipt
  pub error : Option Error

abbrev pub failed : {A : Type 0} → Error → Reply A
failed e = record { value = none; receipt = none; error = some e }

abbrev pub Receipted : Type 0 → Type 0
Receipted W = (Option OperationReceipt × Option Error) × W

abbrev pub with_receipt : {A W : Type 0} → A → IntegrationManager W → Receipted W → Reply A × Live W
with_receipt value m ((receipt, error), w) =
    (record { value = some value; receipt = receipt; error = error }, (m, w))

unfoldable pub vault_ref_key : String → String → String
vault_ref_key application_object_id key_id = application_object_id <> ":" <> key_id

-- `fmt.Sprint` of a Boolean.
abbrev pub bool_text : Bool → String
bool_text true = "true"
bool_text false = "false"

abbrev pub vault_details : Option VaultReference → Metadata
vault_details none = []
vault_details (some ref) =
    ("vault_secret_name", ref.secret_name) ∷ ("vault_version", ref.version) ∷ []

-- A version that the request leaves open is the one that the session remembers.
unfoldable pub remembered_version : String → String → String → Dict VaultReference → String
remembered_version version application key refs =
    if version == "" then version_of (lookup (vault_ref_key application key) refs) else version
  where
    version_of : Option VaultReference → String
    version_of none = version
    version_of (some ref) = ref.version

unfoldable pub resolved_read : Dict VaultReference → AzureSecretReadRequest → AzureSecretReadRequest
resolved_read refs req = record req {
  version = remembered_version req.version req.application_object_id req.key_id refs;
}

unfoldable pub resolved_invalidate :
    Dict VaultReference → AzureSecretInvalidateRequest → AzureSecretInvalidateRequest
resolved_invalidate refs req = record req {
  version = remembered_version req.version req.application_object_id req.key_id refs;
}

attach_credential : Dict VaultReference → String → AzureCredential → AzureCredential
attach_credential refs application c = attached (lookup (vault_ref_key application c.key_id) refs)
  where
    attached : Option VaultReference → AzureCredential
    attached none = c
    attached (some ref) = record c { vault = some ref }

-- The loop of `ListApplications`.
unfoldable pub attach_refs : Dict VaultReference → AzureApplication → AzureApplication
unfolding attach_credential vault_ref_key
attach_refs refs a = record a {
  credentials = map (attach_credential refs a.object_id) a.credentials;
}

unfoldable pub event_for :
    EventType → String → Metadata → Time → String → String → AzureIntegrationEvent
event_for event_type application details now id correlation = record {
  id = id;
  event_type = event_type;
  correlation_id = correlation;
  at = now;
  outcome = success;
  provider = "azure-entra";
  application_id = application;
  details = details;
}

abbrev pub receipt_for : Bool → AzureIntegrationEvent → OperationReceipt
receipt_for published event = record {
  id = event.id;
  correlation_id = event.correlation_id;
  event_published = published;
  event = event;
}

-- What an operation does with its session.
abbrev pub Body : Type 0 → Type 0 → Type 0
Body W A = IntegrationSession W → IntegrationManager W → W → Reply A × Live W
