-- ===== src/Lifecycle/Integration/Sessions/Holding.antt =====
-- The sessions' operations keep the manager's invariant.
use mutandae.Prelude.{
  ◌+◌, ◌≤◌, String, ◌≡◌, refl, arith, false, Bool-cases, inl, inr, [], ◌∷◌, Dict, delete, All,
  All-insert, All-delete, length-insert, length-delete, length, ltb, leb, ◌==◌, string_eq,
  trim_space,
}
use mutandae.Protocol.{Time, Duration, AzureIntegrationRequest}
use mutandae.Protocol.Errors.{Result, ok, err}
use mutandae.Lifecycle.Integration.{
  Client, IntegrationSession, Service, IntegrationManager, allow_connection, random_id,
}
use mutandae.Lifecycle.Integration.Guarding.{IsAscii}
use mutandae.Lifecycle.Integration.Held.{Owned, Held, random_id-IsAscii}
use mutandae.Lifecycle.Integration.Sessions.{
  public_of, session_of, admit_session, named_csrf, named, verified, built, connect, unexpired,
  expire_sessions, close_manager, disconnect,
}

module _ {W : Type 0} where
  Owned-session_of :
      (id csrf : String) (req : AzureIntegrationRequest) (client : Client W) (now : Time)
      (ttl : Duration)
      → IsAscii csrf
      → Owned id (session_of id csrf req client now ttl)
  unfolding session_of public_of
  Owned-session_of id csrf req client now ttl h = record {
    own = refl;
    shown = refl;
    until = refl;
    ascii = h;
  }

  Held-admit_session :
      (req : AzureIntegrationRequest) (client : Client W) (now : Time) (id csrf : String)
      (m : IntegrationManager W) (w : W)
      → IsAscii csrf
      → Held m
      → Held (admit_session req client now id csrf (m, w)).1.0
  unfolding admit_session
  Held-admit_session req client now id csrf m w h inv =
      elim (Bool-cases (leb m.max_sessions (length m.sessions))) [
        | inl e ↦ rw e inv
        | inr e ↦ rw e (record {
          few = omega (
            arith,
            length-insert id (session_of id csrf req client now m.ttl) m.sessions,
            room e,
          );
          owned =
              All-insert Owned id (session_of id csrf req client now m.ttl) m.sessions
                (Owned-session_of id csrf req client now m.ttl h) inv.owned;
        })
      ]
    where
      room : leb m.max_sessions (length m.sessions) ≡ false → length m.sessions + 1 ≤ m.max_sessions
      room e = ground arith

  module _ (S : Service W) (req : AzureIntegrationRequest) (now : Time) (m : IntegrationManager W)
      (inv : Held m) where
    Held-named_csrf :
        (client : Client W) (id : String) (r : Result String × W)
        → ((text : String) → r.0 ≡ ok text → IsAscii text)
        → Held (named_csrf req client now id m r).1.0
    unfolding named_csrf
    Held-named_csrf client id (ok csrf, w) h =
        Held-admit_session req client now id csrf m w (h csrf refl) inv
    Held-named_csrf client id (err e, w) h = inv

    Held-named : (client : Client W) (r : Result String × W) → Held (named S req now m client r).1.0
    unfolding named
    Held-named client (ok id, w) =
        Held-named_csrf client id (random_id S "csrf" w) (random_id-IsAscii S w)
    Held-named client (err e, w) = inv

    Held-verified :
        (client : Client W) (r : Result (Unit {0}) × W) → Held (verified S req now m client r).1.0
    unfolding verified
    Held-verified client (ok done, w) = Held-named client (random_id S "int" w)
    Held-verified client (err e, w) = inv

    Held-built : (r : Result (Client W)) (w : W) → Held (built S req now m r w).1.0
    unfolding built
    Held-built (ok client) w = Held-verified client (client.verify w)
    Held-built (err e) w = inv

  Held-allow_connection :
      (key : String) (now : Time) (m : IntegrationManager W)
      → Held m
      → Held (allow_connection key now m).1
  unfolding allow_connection
  Held-allow_connection key now m inv = ground arith

  pub Held-connect :
      (S : Service W) (req : AzureIntegrationRequest) (csrf rate_key : String) (now : Time)
      (m : IntegrationManager W) (w : W)
      → Held m
      → Held (connect S req csrf rate_key now (m, w)).1.0
  unfolding connect
  Held-connect S req csrf rate_key now m w inv = elim (Bool-cases (trim_space csrf == "")) [
    | inl e ↦ rw e inv
    | inr e ↦
        let inv' = Held-allow_connection rate_key now m inv in
        elim (Bool-cases (allow_connection rate_key now m).0) [
          | inl admits ↦ rw (e, admits) (Held-built S req now _ inv' (S.new_client req) w)
          | inr shut ↦ rw (e, shut) inv'
        ]
  ]

  length-unexpired :
      (now : Time) (sessions : Dict (IntegrationSession W))
      → length (unexpired now sessions) ≤ length sessions
  unfolding unexpired
  length-unexpired now [] = omega arith
  length-unexpired now ((id, s) ∷ sessions) = ground (arith, length-unexpired now sessions)

  All-unexpired :
      (now : Time) (sessions : Dict (IntegrationSession W))
      → All (λ e. Owned e.0 e.1) sessions
      → All (λ e. Owned e.0 e.1) (unexpired now sessions)
  unfolding unexpired
  All-unexpired now [] h = tt
  All-unexpired now ((id, s) ∷ sessions) h = elim (Bool-cases (ltb now s.expires_at)) [
    | inl e ↦ rw e (h.0, All-unexpired now sessions h.1)
    | inr e ↦ rw e (All-unexpired now sessions h.1)
  ]

  pub Held-expire_sessions :
      (now : Time) (m : IntegrationManager W) (w : W) → Held m → Held (expire_sessions now (m, w)).0
  unfolding expire_sessions
  Held-expire_sessions now m w inv = record {
    few = omega (arith, length-unexpired now m.sessions, inv.few);
    owned = All-unexpired now m.sessions inv.owned;
  }

  pub Held-close_manager :
      (m : IntegrationManager W) (w : W) → Held m → Held (close_manager (m, w)).0
  unfolding close_manager
  Held-close_manager m w inv = record { few = omega arith; owned = tt }

  pub Held-dropped :
      (id : String) (m : IntegrationManager W)
      → Held m
      → Held (record m { sessions = delete id m.sessions })
  Held-dropped id m inv = record {
    few = omega (arith, length-delete id m.sessions, inv.few);
    owned = All-delete Owned id m.sessions inv.owned;
  }

  pub Held-disconnect :
      (id : String) (m : IntegrationManager W) (w : W) → Held m → Held (disconnect id (m, w)).0
  unfolding disconnect
  Held-disconnect id m w inv = Held-dropped id m inv
