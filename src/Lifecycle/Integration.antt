-- ===== src/Lifecycle/Integration.antt =====
-- The interactive sessions of internal/lifecycle/integration.go: the manager with its two maps, and
-- the Azure client of a session as a record of calls over the world.
pub mod Guarding
pub mod Held
pub mod Sessions
pub mod Receipts
pub mod Operations
pub mod Throttle
pub mod Runs
use mutandae.Prelude.{
  ℕ, zero, suc, ◌+◌, ◌-◌, ◌*◌, ◌/◌, ◌%◌, hex, size, first, skip, trim_space, ◌<>◌, String, Bool,
  true, false, Option, none, some, List, [], ◌∷◌, ◌++◌, ◌||◌, Dict, lookup, insert, ltb, leb, ◌==◌,
  nat_eq, if◌then◌else◌, length, filter,
}
use mutandae.Protocol.{
  Time, Duration, VaultConfiguration, VaultReference, AzureIntegrationRequest,
  AzureIntegrationSession, AzureIntegrationEvent, AzureApplication, AzureCredential,
  AzureSecretResult, OperationReceipt, AzureSecretCreateRequest, AzureSecretReadRequest,
  AzureSecretInvalidateRequest,
}
use mutandae.Protocol.Errors.{Error, Result, ok, err}
use mutandae.Protocol.Iso8601.{minute, hour}
use mutandae.Lifecycle.Env.{Call}
use Prim.Native.Char.{Char}

-- `*provider.AzureClient`. A failed invalidation also returns a credential. A read always returns the
-- vault reference that it read from.
pub record Client (W : Type 0) : Type 0 where
  pub verify : Call W (Unit {0})
  pub close : W → W
  pub list_applications : Call W (List AzureApplication)
  pub create_application : String → Call W AzureApplication
  pub create_secret :
      AzureSecretCreateRequest → Option VaultConfiguration → Call W AzureSecretResult
  pub read_secret : AzureSecretReadRequest → Call W (AzureSecretResult × VaultReference)
  pub invalidate_secret : AzureSecretInvalidateRequest → W → (AzureCredential × Option Error) × W

pub record IntegrationSession (W : Type 0) : Type 0 where
  pub id : String
  pub csrf : String
  pub expires_at : Time
  pub client : Client W
  pub vault : Option VaultConfiguration
  pub vault_refs : Dict VaultReference
  pub public_view : AzureIntegrationSession

-- What the manager is given: the constructor of clients, the publisher, and the random source, which
-- yields sixteen bytes.
pub record Service (W : Type 0) : Type 0 where
  pub new_client : AzureIntegrationRequest → Result (Client W)
  pub publish : AzureIntegrationEvent → Call W (Unit {0})
  pub random_bytes : Call W (List ℕ)

-- The maps of `integrationManager`, its lifetime of a session and its two limits.
pub record IntegrationManager (W : Type 0) : Type 0 where
  pub sessions : Dict (IntegrationSession W)
  pub connections : Dict (List Time)
  pub ttl : Duration
  pub max_connections : ℕ
  pub max_sessions : ℕ

-- `NewIntegrationManager`, with a publisher.
unfoldable pub new_integration_manager : {W : Type 0} → Duration → IntegrationManager W
new_integration_manager ttl = record {
  sessions = [];
  connections = [];
  ttl = if ttl == 0 || ltb (30 * minute) ttl then 10 * minute else ttl;
  max_connections = 5;
  max_sessions = 50;
}

-- `attempt.After(now.Add(-time.Hour))`
abbrev pub recent : Time → Time → Bool
recent now attempt = ltb now (attempt + hour)

abbrev pub attempts_of : Option (List Time) → List Time
attempts_of none = []
attempts_of (some attempts) = attempts

-- `allowConnection`: whether the attempt is admitted, and the attempts that are kept.
unfoldable pub allow_connection :
    {W : Type 0} → String → Time → IntegrationManager W → Bool × IntegrationManager W
allow_connection key now m =
    let kept = filter (recent now) (attempts_of (lookup key m.connections)) in
    if leb m.max_connections (length kept)
    then (false, record m { connections = insert key kept m.connections })
    else (true, record m { connections = insert key (kept ++ now ∷ []) m.connections })

abbrev pub random_text : {W : Type 0} → String → Result (List ℕ) × W → Result String × W
random_text name (ok raw, w) = (ok (name <> "-" <> hex raw), w)
random_text name (err e, w) = (err e, w)

-- `randomID`
unfoldable pub random_id : {W : Type 0} → Service W → String → Call W String
random_id S name w = random_text name (S.random_bytes w)

-- `redactIdentifier`, where a character is one byte, as in a GUID or a host name.
unfoldable pub redact_identifier : String → String
redact_identifier value =
    let trimmed = trim_space value in
    if leb (size trimmed) 8
    then "********"
    else first 4 trimmed <> "…" <> skip (size trimmed - 4) trimmed
