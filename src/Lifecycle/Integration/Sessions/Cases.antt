-- ===== src/Lifecycle/Integration/Sessions/Cases.antt =====
-- The four ends of `session`.
use mutandae.Prelude.{
  ◌≤◌, ◌<◌, String, ◌≡◌, refl, ◌⊎◌, inl, inr, arith, true, Bool-cases, Option-cases, some, lookup,
  delete, ltb,
}
use mutandae.Protocol.{Time}
use mutandae.Protocol.Errors.{Error, ok, err, bare, integration_session_not_found, integration_csrf}
use mutandae.Lifecycle.Integration.{IntegrationSession, IntegrationManager}
use mutandae.Lifecycle.Integration.Guarding.{secure_equal}
use mutandae.Lifecycle.Integration.Sessions.{session, session_found}

module _ {W : Type 0} (id csrf : String) (now : Time) (m : IntegrationManager W) (w : W) where
  -- The session is there, is not expired, and has the token.
  pub record Admits (s : IntegrationSession W) : Type 0 where
    pub found : lookup id m.sessions ≡ some s
    pub alive : now < s.expires_at
    pub token : secure_equal s.csrf csrf ≡ true
    pub opened : session id csrf now (m, w) ≡ (ok s, (m, w))

  -- The session has expired: it is dropped and its client closed.
  pub record Expires (s : IntegrationSession W) : Type 0 where
    pub found : lookup id m.sessions ≡ some s
    pub late : s.expires_at ≤ now
    pub dropped : session id csrf now (m, w) ≡ (
      err (bare integration_session_not_found),
      (record m { sessions = delete id m.sessions }, s.client.close w),
    )

  -- Nothing happens.
  pub record Refuses (e : Error) : Type 0 where
    pub refused : session id csrf now (m, w) ≡ (err e, (m, w))

  pub session_cases :
      ((s : IntegrationSession W) × Admits s)
      ⊎ (((s : IntegrationSession W) × Expires s) ⊎ ((e : Error) × Refuses e))
  unfolding session session_found
  session_cases = elim (Option-cases (lookup id m.sessions)) [
    | inl e ↦ inr (inr (bare integration_session_not_found, record { refused = rw e refl }))
    | inr (s, e) ↦ elim (Bool-cases (ltb now s.expires_at)) [
      | inl alive ↦ elim (Bool-cases (secure_equal s.csrf csrf)) [
        | inl token ↦ inl (
          s,
          record {
            found = e;
            alive = ground arith;
            token = token;
            opened = rw (e, alive, token) refl;
          },
        )
        | inr other ↦
            inr (inr (bare integration_csrf, record { refused = rw (e, alive, other) refl }))
      ]
      | inr late ↦
          inr (inl (s, record { found = e; late = ground arith; dropped = rw (e, late) refl }))
    ]
  ]
