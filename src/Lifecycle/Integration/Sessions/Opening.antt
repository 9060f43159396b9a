-- ===== src/Lifecycle/Integration/Sessions/Opening.antt =====
-- What `Connect` leaves behind when it succeeds.
use mutandae.Prelude.{
  ◌+◌, String, ◌≡◌, refl, ap, ◌∙◌, arith, Bool-cases, inl, inr, some, lookup, lookup-insert,
  eq_refl, leb, length, ◌==◌, string_eq, trim_space,
}
use mutandae.Protocol.{Time, AzureIntegrationRequest, AzureIntegrationSession}
use mutandae.Protocol.Errors.{Result, ok, err}
use mutandae.Lifecycle.Integration.{
  Client, IntegrationSession, Service, IntegrationManager, allow_connection, random_id,
}
use mutandae.Lifecycle.Integration.Guarding.{IsAscii}
use mutandae.Lifecycle.Integration.Held.{random_id-IsAscii}
use mutandae.Lifecycle.Integration.Sessions.{
  Connected, public_of, session_of, admit_session, named_csrf, named, verified, built, connect,
}

module _ {W : Type 0} where
  -- The session of a view, with its token and its end.
  pub record Opens (view : AzureIntegrationSession) (csrf : String) (until : Time)
      (m : IntegrationManager W) : Type 0 where
    pub session : IntegrationSession W
    pub found : lookup view.id m.sessions ≡ some session
    pub shown : session.public_view ≡ view
    pub token : session.csrf ≡ csrf
    pub ends : session.expires_at ≡ until
    pub ascii : IsAscii csrf

  abbrev Opening : Time → Connected W → Type 0
  Opening until r =
      (view : AzureIntegrationSession) (csrf : String)
      → r.0 ≡ ok (view, csrf)
      → Opens view csrf until r.1.0

  Opening-admit_session :
      (req : AzureIntegrationRequest) (client : Client W) (now : Time) (id csrf : String)
      (m : IntegrationManager W) (w : W)
      → IsAscii csrf
      → Opening (now + m.ttl) (admit_session req client now id csrf (m, w))
  unfolding admit_session public_of session_of
  Opening-admit_session req client now id csrf m w ascii view token h =
      elim (Bool-cases (leb m.max_sessions (length m.sessions))) [
        | inl e ↦ absurd (ground arith)
        | inr e ↦
            let same : public_of id req now m.ttl ≡ view = ground arith in
            let told : csrf ≡ token = ground arith in
            rw (e, ← told)
              (record {
                session = session_of id csrf req client now m.ttl;
                found = rw (← same) (simp (lookup-insert, eq_refl));
                shown = same;
                token = refl;
                ends = refl;
                ascii = ascii;
              })
      ]

  module _ (S : Service W) (req : AzureIntegrationRequest) (now : Time)
      (m : IntegrationManager W) where
    Opening-named_csrf :
        (client : Client W) (id : String) (r : Result String × W)
        → ((text : String) → r.0 ≡ ok text → IsAscii text)
        → Opening (now + m.ttl) (named_csrf req client now id m r)
    unfolding named_csrf
    Opening-named_csrf client id (ok csrf, w) ascii =
        Opening-admit_session req client now id csrf m w (ascii csrf refl)
    Opening-named_csrf client id (err e, w) ascii = λ view token h. absurd (ground arith)

    Opening-named :
        (client : Client W) (r : Result String × W)
        → Opening (now + m.ttl) (named S req now m client r)
    unfolding named
    Opening-named client (ok id, w) =
        Opening-named_csrf client id (random_id S "csrf" w) (random_id-IsAscii S w)
    Opening-named client (err e, w) = λ view token h. absurd (ground arith)

    Opening-verified :
        (client : Client W) (r : Result (Unit {0}) × W)
        → Opening (now + m.ttl) (verified S req now m client r)
    unfolding verified
    Opening-verified client (ok done, w) = Opening-named client (random_id S "int" w)
    Opening-verified client (err e, w) = λ view token h. absurd (ground arith)

    Opening-built : (r : Result (Client W)) (w : W) → Opening (now + m.ttl) (built S req now m r w)
    unfolding built
    Opening-built (ok client) w = Opening-verified client (client.verify w)
    Opening-built (err e) w = λ view token h. absurd (ground arith)

  ttl-allow_connection :
      (key : String) (now : Time) (m : IntegrationManager W)
      → (allow_connection key now m).1.ttl ≡ m.ttl
  unfolding allow_connection
  ttl-allow_connection key now m = ground arith

  pub Opens-connect :
      (S : Service W) (req : AzureIntegrationRequest) (csrf rate_key : String) (now : Time)
      (m : IntegrationManager W) (w : W) (view : AzureIntegrationSession) (token : String)
      → (connect S req csrf rate_key now (m, w)).0 ≡ ok (view, token)
      → Opens view token (now + m.ttl) (connect S req csrf rate_key now (m, w)).1.0
  unfolding connect
  Opens-connect S req csrf rate_key now m w view token h =
      elim (Bool-cases (trim_space csrf == "")) [
        | inl e ↦ absurd (ground arith)
        | inr e ↦ elim (Bool-cases (allow_connection rate_key now m).0) [
          | inl admits ↦
              let m' = (allow_connection rate_key now m).1 in
              let o =
                Opening-built S req now m' (S.new_client req) w view token (rw (e, admits) at h) in
              rw (e, admits)
                (record {
                  session = o.session;
                  found = o.found;
                  shown = o.shown;
                  token = o.token;
                  ends = o.ends ∙ ap (λ t. now + t) (ttl-allow_connection rate_key now m);
                  ascii = o.ascii;
                })
          | inr shut ↦ absurd (ground arith)
        ]
      ]
