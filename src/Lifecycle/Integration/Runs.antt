-- ===== src/Lifecycle/Integration/Runs.antt =====
-- The calls of `IntegrationService` as one type, and runs of them.
pub mod Gate
pub mod Fresh
pub mod Holding
use mutandae.Prelude.{String, Option, none, some, List, [], ◌∷◌}
use mutandae.Protocol.{
  Time, AzureIntegrationRequest, AzureSecretCreateRequest, AzureSecretReadRequest,
  AzureSecretInvalidateRequest,
}
use mutandae.Protocol.Errors.{Error}
use mutandae.Lifecycle.Integration.{Service}
use mutandae.Lifecycle.Integration.Sessions.{
  Live, connect, disconnect, expire_sessions, close_manager,
}
use mutandae.Lifecycle.Integration.Operations.{
  session_view, list_applications, create_application, create_secret, read_secret,
  invalidate_secret,
}
use mutandae.Lifecycle.Integration.Receipts.{Reply}

-- The calls that are given a session.
pub data SessionCall : Type 0 where
  views lists : SessionCall
  creates_application : String → SessionCall
  creates_secret : AzureSecretCreateRequest → SessionCall
  reads_secret : AzureSecretReadRequest → SessionCall
  invalidates_secret : AzureSecretInvalidateRequest → SessionCall

abbrev outcome : {A W : Type 0} → Reply A × Live W → Option Error × Live W
outcome (reply, l) = (reply.error, l)

unfoldable pub serve :
    {W : Type 0} → Service W → SessionCall → String → String → Time → Live W → Option Error × Live W
serve S views id csrf now l = outcome (session_view id csrf now l)
serve S lists id csrf now l = outcome (list_applications S id csrf now l)
serve S (creates_application name) id csrf now l = outcome (create_application S id csrf now name l)
serve S (creates_secret req) id csrf now l = outcome (create_secret S id csrf now req l)
serve S (reads_secret req) id csrf now l = outcome (read_secret S id csrf now req l)
serve S (invalidates_secret req) id csrf now l = outcome (invalidate_secret S id csrf now req l)

pub data IntegrationStep : Type 0 where
  connects : AzureIntegrationRequest → String → String → IntegrationStep
  calls : SessionCall → String → String → IntegrationStep
  disconnects : String → IntegrationStep
  cleans_up closes : IntegrationStep

unfoldable pub step : {W : Type 0} → Service W → IntegrationStep → Time → Live W → Live W
step S (connects req csrf rate_key) now l = (connect S req csrf rate_key now l).1
step S (calls call id csrf) now l = (serve S call id csrf now l).1
step S (disconnects id) now l = disconnect id l
step S cleans_up now l = expire_sessions now l
step S closes now l = close_manager l

unfoldable pub run : {W : Type 0} → Service W → List (IntegrationStep × Time) → Live W → Live W
unfolding step
run S [] l = l
run S ((s, now) ∷ steps) l = run S steps (step S s now l)
