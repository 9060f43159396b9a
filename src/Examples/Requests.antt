-- ===== src/Examples/Requests.antt =====
-- The properties of single requests, on concrete stores.
use mutandae.Prelude.{◌≡◌, ◌↔◌, refl, lookup, insert, true, false, trim_space}
use mutandae.Protocol.{active, retired, registered, renewing}
use mutandae.Protocol.Errors.{ok, err, bare, plain, wrap, provider_failure, forbidden}
use mutandae.Protocol.Validation.{validate_rotate_request, validate_retire_request}
use mutandae.Protocol.Transitions.Reach.{Reach, Known, can_transition_lem}
use mutandae.Lifecycle.Env.{Env, Vault}
use mutandae.Lifecycle.Errors.{provider_operation_error, Reported}
use mutandae.Lifecycle.Retire.{retire, delete_identity}
use mutandae.Lifecycle.Retire.Answered.{Retired, retire_lem, retire_provider_failure}
use mutandae.Lifecycle.Retire.Erased.{Erased, delete_lem}
use mutandae.Lifecycle.Rotate.{rotate}
use mutandae.Lifecycle.Rotate.Answered.{Rotated, rotate_lem}
use mutandae.Lifecycle.Rotate.Section.{answer}
use mutandae.Lifecycle.Store.Monad.{Sys}
use mutandae.Lifecycle.Store.Snapshots.{persist}
use mutandae.Lifecycle.Use.{use_credential}
use mutandae.Lifecycle.Use.Audited.{Answered, use_lem}
use mutandae.Lifecycle.Use.Secrets.{Served, use_outage}
use mutandae.Examples.{
  cloud, env_with, broken_vault, unsupported_vault, holding, billing, rotation, retirement_request,
  deletion, use_request, World,
}

rotate_lem_example :
    Rotated
      (rotation false)
      10
      (billing active)
      (answer (rotation false) 10 (billing active) cloud (holding active)).0
      (holding active).store
      (rotate cloud (rotation false) 10 (holding active)).1.store
unfolding validate_rotate_request lookup insert trim_space
rotate_lem_example =
    rotate_lem cloud (rotation false) 10 (holding active) (billing active) refl refl (refl, refl)
      refl

retire_lem_example :
    Retired
      (retirement_request true)
      10
      (billing active)
      (holding active).store
      (retire cloud (retirement_request true) 10 (holding active)).1.store
unfolding validate_retire_request lookup insert trim_space
retire_lem_example =
    retire_lem cloud (retirement_request true) 10 (holding active) (billing active) (billing active)
      tt refl refl refl refl refl refl

-- The provider forbids it.
abbrev forbidding : Env World
forbidding = record cloud {
  adapter = record cloud.adapter { retire = λ v w. (err (bare forbidden), w) };
}

retire_provider_failure_example :
    (retire forbidding (retirement_request true) 10 (holding active)
      ≡ (err (provider_operation_error (bare forbidden)), holding active))
    × Reported (bare forbidden) (provider_operation_error (bare forbidden))
unfolding validate_retire_request lookup insert trim_space
retire_provider_failure_example =
    retire_provider_failure forbidding (retirement_request true) 10 (holding active)
      (billing active) (bare forbidden) tt refl refl refl refl refl refl

delete_lem_example :
    Erased "billing" (delete_identity cloud (deletion true) 10 (holding retired)).1.store
unfolding lookup insert
delete_lem_example =
    delete_lem cloud (deletion true) 10 (billing retired) (holding retired) refl refl refl refl

vault-Served :
    (vault : Vault World)
    → Served (env_with vault) use_request (holding active) (billing active) vault
unfolding lookup insert
vault-Served vault = record { found = refl; live = refl; vault = refl }

use_outage_example :
    use_credential (env_with broken_vault) use_request 10 (holding active)
    ≡ (err (wrap provider_failure "503"), holding active)
use_outage_example =
    use_outage (env_with broken_vault) use_request 10 (holding active) (billing active) broken_vault
      (vault-Served broken_vault) (plain "503") tt refl refl

saves_always : (t : Sys World) → (persist (env_with unsupported_vault) t).0 ≡ ok tt
unfolding persist
saves_always t = refl

can_transition_lem_example :
    (Reach registered renewing ↔ Known renewing)
    × (Reach renewing retired ↔ Known renewing)
    × (Reach retired renewing ↔ (renewing ≡ retired))
can_transition_lem_example = can_transition_lem renewing

use_lem_example :
    Answered (env_with unsupported_vault) use_request 10 (holding active) (billing active)
unfolding lookup insert
use_lem_example =
    use_lem (env_with unsupported_vault) use_request 10 (holding active) (billing active)
      saves_always refl refl
