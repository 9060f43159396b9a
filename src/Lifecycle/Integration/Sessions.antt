-- ===== src/Lifecycle/Integration/Sessions.antt =====
-- `Connect`, `session`, `Disconnect`, `expireSessions` and `Close` of internal/lifecycle/integration.go.
-- An operation takes the manager with the world to its result and the manager with the world; the
-- critical sections of one operation follow one another with nothing between.
pub mod Holding
pub mod Cases
pub mod Opening
use mutandae.Prelude.{
  ℕ, ◌+◌, String, Bool, true, false, not, Option, none, some, List, [], ◌∷◌, Dict, lookup, insert,
  delete, is_some, ltb, leb, ◌==◌, string_eq, nat_eq, if◌then◌else◌, length, trim_space,
}
use mutandae.Protocol.{Time, Duration, AzureIntegrationRequest, AzureIntegrationSession}
use mutandae.Protocol.Errors.{
  Error, Result, ok, err, bare, integration_session_not_found, integration_csrf,
  integration_rate_limited,
}
use mutandae.Lifecycle.Integration.{
  Client, IntegrationSession, Service, IntegrationManager, allow_connection, random_id,
  redact_identifier,
}
use mutandae.Lifecycle.Integration.Guarding.{secure_equal}

-- The manager with the world around it.
abbrev pub Live : Type 0 → Type 0
Live W = IntegrationManager W × W

abbrev pub Connected : Type 0 → Type 0
Connected W = Result (AzureIntegrationSession × String) × Live W

abbrev capabilities_of_session : List String
capabilities_of_session =
    "list applications" ∷ "create applications" ∷ "create one-time client secrets"
    ∷ "invalidate owned secrets" ∷ "Redis redacted event publication" ∷ []

unfoldable pub public_of :
    String → AzureIntegrationRequest → Time → Duration → AzureIntegrationSession
public_of id req now ttl = record {
  id = id;
  provider = "azure-entra";
  tenant_hint = redact_identifier req.tenant_id;
  client_hint = redact_identifier req.client_id;
  expires_at = now + ttl;
  vault_configured = is_some req.vault;
  capabilities = capabilities_of_session;
}

module _ {W : Type 0} where
  unfoldable pub session_of :
      String → String → AzureIntegrationRequest → Client W → Time → Duration → IntegrationSession W
  session_of id csrf req client now ttl = record {
    id = id;
    csrf = csrf;
    expires_at = now + ttl;
    client = client;
    vault = req.vault;
    vault_refs = [];
    public_view = public_of id req now ttl;
  }

  -- The section of `Connect` under the lock.
  unfoldable pub admit_session :
      AzureIntegrationRequest → Client W → Time → String → String → Live W → Connected W
  admit_session req client now id csrf (m, w) =
      if leb m.max_sessions (length m.sessions)
      then (err (bare integration_rate_limited), (m, client.close w))
      else (
        ok (public_of id req now m.ttl, csrf),
        (record m { sessions = insert id (session_of id csrf req client now m.ttl) m.sessions }, w),
      )

  named_csrf :
      AzureIntegrationRequest
      → Client W
      → Time
      → String
      → IntegrationManager W
      → Result String × W
      → Connected W
  unfolding admit_session
  named_csrf req client now id m (ok csrf, w) = admit_session req client now id csrf (m, w)
  named_csrf req client now id m (err e, w) = (err e, (m, client.close w))

  module _ (S : Service W) (req : AzureIntegrationRequest) (now : Time)
      (m : IntegrationManager W) where
    named : Client W → Result String × W → Connected W
    unfolding named_csrf
    named client (ok id, w) = named_csrf req client now id m (random_id S "csrf" w)
    named client (err e, w) = (err e, (m, client.close w))

    verified : Client W → Result (Unit {0}) × W → Connected W
    unfolding named
    verified client (ok done, w) = named client (random_id S "int" w)
    verified client (err e, w) = (err e, (m, client.close w))

    built : Result (Client W) → W → Connected W
    unfolding verified
    built (ok client) w = verified client (client.verify w)
    built (err e) w = (err e, (m, w))

  unfoldable pub connect :
      Service W → AzureIntegrationRequest → String → String → Time → Live W → Connected W
  unfolding built
  connect S req csrf rate_key now (m, w) =
      let (admits, m') = allow_connection rate_key now m in
      if trim_space csrf == ""
      then (err (bare integration_csrf), (m, w))
      else if admits
      then built S req now m' (S.new_client req) w
      else (err (bare integration_rate_limited), (m', w))

  -- Go ranges over the map in any order; the clients are closed in the order of the list here.
  unfoldable pub unexpired : Time → Dict (IntegrationSession W) → Dict (IntegrationSession W)
  unexpired now [] = []
  unexpired now ((id, s) ∷ sessions) =
      let rest = unexpired now sessions in if ltb now s.expires_at then (id, s) ∷ rest else rest

  unfoldable pub close_expired : Time → Dict (IntegrationSession W) → W → W
  close_expired now [] w = w
  close_expired now ((id, s) ∷ sessions) w =
      close_expired now sessions (if ltb now s.expires_at then w else s.client.close w)

  unfoldable pub expire_sessions : Time → Live W → Live W
  expire_sessions now (m, w) =
      (record m { sessions = unexpired now m.sessions }, close_expired now m.sessions w)

  unfoldable pub close_all : Dict (IntegrationSession W) → W → W
  close_all [] w = w
  close_all ((id, s) ∷ sessions) w = close_all sessions (s.client.close w)

  -- `Close`, without the cleanup goroutine that it stops.
  unfoldable pub close_manager : Live W → Live W
  close_manager (m, w) = (record m { sessions = [] }, close_all m.sessions w)

  close_found : Option (IntegrationSession W) → W → W
  close_found none w = w
  close_found (some s) w = s.client.close w

  unfoldable pub disconnect : String → Live W → Live W
  unfolding close_found
  disconnect id (m, w) =
      (record m { sessions = delete id m.sessions }, close_found (lookup id m.sessions) w)

  session_found :
      String
      → String
      → Time
      → Live W
      → Option (IntegrationSession W)
      → Result (IntegrationSession W) × Live W
  session_found id csrf now l none = (err (bare integration_session_not_found), l)
  session_found id csrf now (m, w) (some s) =
      if not (ltb now s.expires_at)
      then (
        err (bare integration_session_not_found),
        (record m { sessions = delete id m.sessions }, s.client.close w),
      )
      else if not (secure_equal s.csrf csrf)
      then (err (bare integration_csrf), (m, w))
      else (ok s, (m, w))

  unfoldable pub session : String → String → Time → Live W → Result (IntegrationSession W) × Live W
  unfolding session_found
  session id csrf now (m, w) = session_found id csrf now (m, w) (lookup id m.sessions)
