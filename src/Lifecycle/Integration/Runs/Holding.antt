-- ===== src/Lifecycle/Integration/Runs/Holding.antt =====
-- The manager's invariant over runs.
use mutandae.Prelude.{String, List, [], ◌∷◌}
use mutandae.Protocol.{Time}
use mutandae.Lifecycle.Integration.{Service, IntegrationManager}
use mutandae.Lifecycle.Integration.Held.{Held}
use mutandae.Lifecycle.Integration.Sessions.{Live}
use mutandae.Lifecycle.Integration.Sessions.Holding.{
  Held-connect, Held-expire_sessions, Held-close_manager, Held-disconnect,
}
use mutandae.Lifecycle.Integration.Operations.{
  view_body, list_body, create_body, secret_body, read_body, invalidate_body, session_view,
  list_applications, create_application, create_secret, read_secret, invalidate_secret,
}
use mutandae.Lifecycle.Integration.Operations.Holding.{
  Held-in_session, view_body-Holding, list_body-Holding, create_body-Holding, secret_body-Holding,
  read_body-Holding, invalidate_body-Holding,
}
use mutandae.Lifecycle.Integration.Runs.{
  SessionCall, views, lists, creates_application, creates_secret, reads_secret, invalidates_secret,
  IntegrationStep, connects, calls, disconnects, cleans_up, closes, serve, step, run,
}

module _ {W : Type 0} (S : Service W) (now : Time) (m : IntegrationManager W) (w : W)
    (inv : Held m) where
  serve-Held : (call : SessionCall) (id csrf : String) → Held (serve S call id csrf now (m, w)).1.0
  unfolding serve session_view list_applications create_application create_secret read_secret
      invalidate_secret
  serve-Held views id csrf = Held-in_session id csrf now view_body m w view_body-Holding inv
  serve-Held lists id csrf =
      Held-in_session id csrf now (list_body S now) m w (list_body-Holding S now) inv
  serve-Held (creates_application name) id csrf =
      Held-in_session id csrf now (create_body S now name) m w (create_body-Holding S now name) inv
  serve-Held (creates_secret req) id csrf =
      Held-in_session id csrf now (secret_body S now req) m w (secret_body-Holding S now req) inv
  serve-Held (reads_secret req) id csrf =
      Held-in_session id csrf now (read_body S now req) m w (read_body-Holding S now req) inv
  serve-Held (invalidates_secret req) id csrf =
      Held-in_session id csrf now (invalidate_body S now req) m w
        (invalidate_body-Holding S now req) inv

  step-Held : (s : IntegrationStep) → Held (step S s now (m, w)).0
  unfolding step
  step-Held (connects req csrf rate_key) = Held-connect S req csrf rate_key now m w inv
  step-Held (calls call id csrf) = serve-Held call id csrf
  step-Held (disconnects id) = Held-disconnect id m w inv
  step-Held cleans_up = Held-expire_sessions now m w inv
  step-Held closes = Held-close_manager m w inv

-- Any run of connections, session calls, disconnections, clean-ups and closings keeps the
-- manager's invariant, whatever Azure, the vault, the publisher and the random source answer: it
-- has at most its maximum of sessions, each is stored under its own id, its public view tells its
-- id and its expiry, and its token is ASCII.
pub run-Held :
    {W : Type 0} (S : Service W) (steps : List (IntegrationStep × Time)) (l : Live W)
    → Held l.0
    → Held (run S steps l).0
unfolding run
run-Held S [] l inv = inv
run-Held S ((s, now) ∷ steps) (m, w) inv =
    run-Held S steps (step S s now (m, w)) (step-Held S now m w inv s)
