-- ===== src/Lifecycle/Integration/Runs/Gate.antt =====
-- What a call needs of its session, and what it does without it.
use mutandae.Prelude.{◌≤◌, ◌<◌, String, ◌≡◌, refl, ◌⊎◌, inl, inr, some, lookup, delete, All-lookup}
use mutandae.Protocol.{Time}
use mutandae.Protocol.Errors.{Error, err, bare, integration_session_not_found}
use mutandae.Lifecycle.Integration.{IntegrationSession, Service, IntegrationManager}
use mutandae.Lifecycle.Integration.Guarding.{secure_equal_lem}
use mutandae.Lifecycle.Integration.Held.{Owned, Held}
use mutandae.Lifecycle.Integration.Sessions.{Live}
use mutandae.Lifecycle.Integration.Sessions.Cases.{session_cases}
use mutandae.Lifecycle.Integration.Operations.{
  in_session, session_view, list_applications, create_application, create_secret, read_secret,
  invalidate_secret,
}
use mutandae.Lifecycle.Integration.Runs.{
  SessionCall, views, lists, creates_application, creates_secret, reads_secret, invalidates_secret,
  serve,
}
use mutandae.Lifecycle.Integration.Sessions.{session}

-- A stored session that has not expired, under its token.
abbrev pub Authorized : {W : Type 0} → String → String → Time → IntegrationManager W → Type 0
Authorized {W} id csrf now m =
    (s : IntegrationSession W) × (lookup id m.sessions ≡ some s)
    × (now < s.expires_at)
    × (s.csrf ≡ csrf)

module _ {W : Type 0} (S : Service W) (call : SessionCall) (id csrf : String) (now : Time)
    (m : IntegrationManager W) (w : W) where
  -- The call fails, and nothing changes.
  abbrev pub TurnedAway : Type 0
  TurnedAway = (e : Error) × (serve S call id csrf now (m, w) ≡ (some e, (m, w)))

  -- The call fails, its expired session is dropped, and the session's client is closed.
  abbrev pub TimedOut : Type 0
  TimedOut =
      (s : IntegrationSession W) × (lookup id m.sessions ≡ some s)
      × (s.expires_at ≤ now)
      × (serve S call id csrf now (m, w) ≡ (
        some (bare integration_session_not_found),
        (record m { sessions = delete id m.sessions }, s.client.close w),
      ))

module _ {W : Type 0} (S : Service W) where
  -- A call whose session is refused ends there.
  serve_refused :
      (call : SessionCall) (id csrf : String) (now : Time) (l l' : Live W) (e : Error)
      → session id csrf now l ≡ (err e, l')
      → serve S call id csrf now l ≡ (some e, l')
  unfolding serve session_view list_applications create_application create_secret read_secret
      invalidate_secret in_session
  serve_refused views id csrf now l l' e h = rw h refl
  serve_refused lists id csrf now l l' e h = rw h refl
  serve_refused (creates_application name) id csrf now l l' e h = rw h refl
  serve_refused (creates_secret req) id csrf now l l' e h = rw h refl
  serve_refused (reads_secret req) id csrf now l l' e h = rw h refl
  serve_refused (invalidates_secret req) id csrf now l l' e h = rw h refl

  -- For a manager that keeps its invariant, each call of a session either finds a stored session
  -- of that id that has not expired and whose token is the given one, or fails and changes
  -- nothing, or fails as not found, drops an expired session of that id and closes its client.
  pub serve_gate :
      (call : SessionCall) (id csrf : String) (now : Time) (m : IntegrationManager W) (w : W)
      → Held m
      → Authorized id csrf now m
        ⊎ (TurnedAway S call id csrf now m w ⊎ TimedOut S call id csrf now m w)
  serve_gate call id csrf now m w inv = elim (session_cases id csrf now m w) [
    | inl (s, a) ↦
        let ascii = (All-lookup Owned id s m.sessions inv.owned a.found).ascii in
        inl (s, a.found, a.alive, (secure_equal_lem s.csrf csrf ascii).0 a.token)
    | inr (inl (s, x)) ↦
        inr (inr (s, x.found, x.late, serve_refused call id csrf now (m, w) _ _ x.dropped))
    | inr (inr (e, r)) ↦ inr (inl (e, serve_refused call id csrf now (m, w) (m, w) e r.refused))
  ]
