-- ===== src/Examples/Integrations.antt =====
-- The properties of the integration sessions, at concrete inputs.
use mutandae.Prelude.{
  ℕ, ◌+◌, ◌≤◌, String, ◌≡◌, ◌↔◌, ◌⊎◌, refl, arith, true, false, none, List, [], ◌∷◌, length, filter,
  trim_space, lookup, hex,
}
use mutandae.Protocol.{
  AzureIntegrationRequest, AzureIntegrationSession, AzureIntegrationEvent, AzureCredential,
  LifecycleEvent, success, secret_created, credential_used,
}
use mutandae.Protocol.Errors.{ok, err, plain}
use mutandae.Lifecycle.Integration.{
  Client, Service, IntegrationManager, new_integration_manager, allow_connection, random_id,
  redact_identifier,
}
use mutandae.Lifecycle.Integration.Guarding.{secure_equal, secure_equal_lem}
use mutandae.Lifecycle.Integration.Held.{Held}
use mutandae.Lifecycle.Integration.Sessions.{connect, public_of}
use mutandae.Lifecycle.Integration.Runs.{IntegrationStep, connects, calls, cleans_up, lists, run}
use mutandae.Lifecycle.Integration.Sessions.Holding.{Held-connect}
use mutandae.Lifecycle.Integration.Runs.Gate.{Authorized, TurnedAway, TimedOut, serve_gate}
use mutandae.Lifecycle.Integration.Runs.Holding.{run-Held}
use mutandae.Lifecycle.Integration.Runs.Fresh.{ShownUntil, connect_view}
use mutandae.Lifecycle.Integration.Throttle.{within, admitted, admitted_bounded}
use mutandae.Lifecycle.Redaction.{
  redact_lifecycle_event, redact_integration_event, validate_integration_event,
}
use mutandae.Lifecycle.Redaction.Clean.{
  CleanEvent, redact_lifecycle_event_lem, validate_integration_event_lem,
}

abbrev graph_credential : AzureCredential
graph_credential = record {
  key_id = "key-1";
  display_name = "";
  start_at = 0;
  expires_at = 0;
  hint = "";
  vault = none;
}

-- A client that answers everything; the world counts the closed clients.
abbrev graph_client : Client ℕ
graph_client = record {
  verify = λ w. (ok tt, w);
  close = λ w. w + 1;
  list_applications = λ w. (ok [], w);
  create_application = λ name w. (
    ok (record {
      object_id = "object-1";
      application_id = "app-1";
      display_name = name;
      created_at = 0;
      owned_by_calling_client = true;
      credentials = [];
    }),
    w,
  );
  create_secret = λ req vault w. (
    ok (record {
      credential = graph_credential;
      secret_text = "value";
      one_time = true;
      vault = none;
    }),
    w,
  );
  read_secret = λ req w. (err (plain "no Key Vault was configured for this session"), w);
  invalidate_secret = λ req w. ((graph_credential, none), w);
}

abbrev graph_service : Service ℕ
graph_service = record {
  new_client = λ req. ok graph_client;
  publish = λ event w. (ok tt, w);
  random_bytes = λ w. (ok (7 ∷ []), w);
}

abbrev graph_request : AzureIntegrationRequest
graph_request = record {
  tenant_id = "tenant";
  client_id = "client";
  client_secret = "value";
  vault = none;
  requested_by = "";
}

abbrev fresh_manager : IntegrationManager ℕ
fresh_manager = record {
  sessions = [];
  connections = [];
  ttl = 600;
  max_connections = 5;
  max_sessions = 50;
}

fresh-Held : Held fresh_manager
fresh-Held = record { few = omega arith; owned = tt }

secure_equal_lem_example :
    (secure_equal "csrf-07" "csrf-0é" ≡ true) ↔ (◌≡◌ {A = String} "csrf-07" "csrf-0é")
secure_equal_lem_example = secure_equal_lem "csrf-07" "csrf-0é" (omega arith)

abbrev some_event : AzureIntegrationEvent
some_event = record {
  id = "evt-1";
  event_type = secret_created;
  correlation_id = "op-1";
  at = 0;
  outcome = success;
  provider = "azure-entra";
  application_id = "object-1";
  details = ("key_id", "key-1") ∷ ("client_secret", "value") ∷ [];
}

validate_integration_event_lem_example :
    (validate_integration_event some_event ≡ ok tt)
    ↔ (redact_integration_event some_event ≡ some_event)
validate_integration_event_lem_example = validate_integration_event_lem some_event

abbrev some_use : LifecycleEvent
some_use = record {
  id = "evt-001";
  identity_id = "billing";
  event_type = credential_used;
  summary = "read with Bearer abc";
  actor = "operator";
  outcome = success;
  at = 0;
  correlation_id = "";
  run_id = "";
  details = ("token", "abc") ∷ [];
}

redact_lifecycle_event_lem_example :
    CleanEvent (redact_lifecycle_event some_use)
    × (CleanEvent some_use → redact_lifecycle_event some_use ≡ some_use)
redact_lifecycle_event_lem_example = redact_lifecycle_event_lem some_use

abbrev attempts : List (String × ℕ)
attempts = ("a", 1) ∷ ("b", 1) ∷ ("a", 2) ∷ ("a", 2) ∷ ("a", 2) ∷ ("a", 3) ∷ ("a", 4) ∷ []

admitted_bounded_example :
    length (filter (within 9) (admitted "a" attempts (new_integration_manager {W = ℕ} 600))) ≤ 5
admitted_bounded_example = admitted_bounded ℕ 600 "a" attempts 9 (omega arith)

abbrev visit : List (IntegrationStep × ℕ)
visit =
    (connects graph_request "page" "client-1", 10)
    ∷ (calls lists "int-07" "csrf-07", 20)
    ∷ (cleans_up, 700)
    ∷ []

run-Held_example : Held (run graph_service visit (fresh_manager, 0)).0
run-Held_example = run-Held graph_service visit (fresh_manager, 0) fresh-Held

-- The manager once the visitor is connected.
abbrev open_manager : IntegrationManager ℕ
open_manager = (connect graph_service graph_request "page" "client-1" 10 (fresh_manager, 0)).1.0

open-Held : Held open_manager
open-Held = Held-connect graph_service graph_request "page" "client-1" 10 fresh_manager 0 fresh-Held

serve_gate_example :
    Authorized "int-07" "csrf-07" 20 open_manager
    ⊎ (TurnedAway graph_service lists "int-07" "csrf-07" 20 open_manager 0
        ⊎ TimedOut graph_service lists "int-07" "csrf-07" 20 open_manager 0)
serve_gate_example = serve_gate graph_service lists "int-07" "csrf-07" 20 open_manager 0 open-Held

abbrev shown_view : AzureIntegrationSession
shown_view = record {
  id = "int-07";
  provider = "azure-entra";
  tenant_hint = "********";
  client_hint = "********";
  expires_at = 610;
  vault_configured = false;
  capabilities =
      "list applications" ∷ "create applications" ∷ "create one-time client secrets"
      ∷ "invalidate owned secrets" ∷ "Redis redacted event publication" ∷ [];
}

connected :
    (connect graph_service graph_request "page" "client-1" 10 (fresh_manager, 0)).0
    ≡ ok (shown_view, "csrf-07")
unfolding connect allow_connection lookup trim_space random_id hex public_of redact_identifier
connected = refl

connect_view_example :
    ShownUntil shown_view "csrf-07" 610
      (connect graph_service graph_request "page" "client-1" 10 (fresh_manager, 0)).1
connect_view_example =
    connect_view graph_service graph_request "page" "client-1" 10 fresh_manager 0 shown_view
      "csrf-07" connected
