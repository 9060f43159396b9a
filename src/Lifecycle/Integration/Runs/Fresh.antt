-- ===== src/Lifecycle/Integration/Runs/Fresh.antt =====
-- A session from its connection to its end.
use mutandae.Prelude.{◌+◌, ◌≤◌, ◌<◌, String, ◌≡◌, refl, arith, true, false, none, some, ltb}
use mutandae.Protocol.{Time, AzureIntegrationRequest, AzureIntegrationSession}
use mutandae.Protocol.Errors.{ok, bare, integration_session_not_found}
use mutandae.Lifecycle.Integration.{Service, IntegrationManager}
use mutandae.Lifecycle.Integration.Guarding.{secure_equal, secure_equal_lem}
use mutandae.Lifecycle.Integration.Sessions.{Live, connect, session}
use mutandae.Lifecycle.Integration.Sessions.Opening.{Opens, Opens-connect}
use mutandae.Lifecycle.Integration.Operations.{session_view, view_body, in_session}
use mutandae.Lifecycle.Integration.Receipts.{failed}

-- The whole life of a view.
abbrev pub ShownUntil : {W : Type 0} → AzureIntegrationSession → String → Time → Live W → Type 0
ShownUntil view token until l =
    (later : Time)
    → (later < until
        → session_view view.id token later l
          ≡ (record { value = some view; receipt = none; error = none }, l))
      × (until ≤ later
          → (session_view view.id token later l).0 ≡ failed (bare integration_session_not_found))

shown_of_Opens :
    {W : Type 0} (view : AzureIntegrationSession) (token : String) (until : Time)
    (m : IntegrationManager W) (w : W)
    → Opens view token until m
    → ShownUntil view token until (m, w)
unfolding session_view view_body in_session session
shown_of_Opens view token until m w o later = (
  λ h.
      let soon : ltb later o.session.expires_at ≡ true = ground (arith, o.ends) in
      let same : secure_equal o.session.csrf token ≡ true =
        (secure_equal_lem o.session.csrf token (rw o.token o.ascii)).1 o.token in
      rw (o.found, soon, same, o.shown) refl,
  λ h.
      let over : ltb later o.session.expires_at ≡ false = ground (arith, o.ends) in
      rw (o.found, over) refl,
)

-- When Connect returns a view and a token, SessionView with that id and token returns this view
-- and changes nothing at each time before the time of the connection plus the lifetime, and fails
-- as not found from then on.
pub connect_view :
    {W : Type 0} (S : Service W) (req : AzureIntegrationRequest) (csrf rate_key : String)
    (now : Time) (m : IntegrationManager W) (w : W) (view : AzureIntegrationSession)
    (token : String)
    → (connect S req csrf rate_key now (m, w)).0 ≡ ok (view, token)
    → ShownUntil view token (now + m.ttl) (connect S req csrf rate_key now (m, w)).1
connect_view S req csrf rate_key now m w view token h =
    let l = (connect S req csrf rate_key now (m, w)).1 in
    shown_of_Opens view token (now + m.ttl) l.0 l.1
      (Opens-connect S req csrf rate_key now m w view token h)
