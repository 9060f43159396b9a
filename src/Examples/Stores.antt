-- ===== src/Examples/Stores.antt =====
-- The properties of runs of operations, on concrete stores.
use mutandae.Prelude.{
  ◌⊎◌, trim_space, insert, string_eq, ◌≡◌, true, false, refl, arith, inr, List, [], ◌∷◌, lookup,
  Keyed, insert,
}
use mutandae.Protocol.{Time, active, retired}
use mutandae.Lifecycle.Boot.{new_store}
use mutandae.Lifecycle.Boot.Start.{
  LoadsWellFormed, WellFormed, WellFormed-empty, WellFormed-put, served,
}
use mutandae.Lifecycle.Operations.{deletes, Operation, rotates, retires, uses, perform, perform_all}
use mutandae.Lifecycle.Operations.Ledger.{perform-Grown}
use mutandae.Lifecycle.Operations.Others.{SameAt, perform-others}
use mutandae.Protocol.Errors.{Error, err, bare, not_found, already_retired}
use mutandae.Protocol.Validation.{validate_retire_request}
use mutandae.Lifecycle.Retire.{retire}
use mutandae.Lifecycle.Use.{use_credential}
use mutandae.Lifecycle.Operations.Revoked.{use_after_retirement}
use mutandae.Lifecycle.Operations.Terminal.{Ended, perform_all-Ended}
use mutandae.Lifecycle.Store.{empty_store}
use mutandae.Lifecycle.Store.AtRest.{AtRest, Holds-put}
use mutandae.Lifecycle.Store.Numbers.{Grown}
use mutandae.Lifecycle.Store.RoundTrip.{restore-snapshot}
use mutandae.Lifecycle.Store.Snapshots.{restore, snapshot}
use mutandae.Examples.{
  deletion, apart, cloud, holding, billing, rotation, retirement_request, use_request,
}

abbrev year : List (Operation × Time)
year =
    (rotates (rotation false), 10)
    ∷ (uses use_request, 20)
    ∷ (retires (retirement_request true), 30)
    ∷ (rotates (rotation false), 40)
    ∷ []

nothing_loaded : LoadsWellFormed cloud
nothing_loaded = λ repository h w snap load. cc

served_example : WellFormed (perform_all cloud year (new_store cloud 5 tt).1).store
served_example = served cloud 5 tt year nothing_loaded

-- A store with the active identity is well-formed.
pub whole : WellFormed (holding active).store
whole = WellFormed-put (billing active) empty_store refl WellFormed-empty

retired-AtRest : AtRest (holding retired).store
retired-AtRest =
    Holds-put "billing" (billing retired) empty_store WellFormed-empty.at_rest
      (record { own_id = refl; state_settled = inr refl }) (λ j u ne k. k)

retired-Ended : Ended "billing" (holding retired).store
unfolding lookup insert
retired-Ended = λ v h. ground (arith, h)

perform_all-Ended_example : Ended "billing" (perform_all cloud year (holding retired)).store
perform_all-Ended_example =
    perform_all-Ended cloud "billing" year (holding retired) retired-AtRest
      (tt, (tt, (tt, (tt, tt)))) retired-Ended

abbrev afterwards : List (Operation × Time)
afterwards =
    (uses use_request, 40) ∷ (rotates (rotation false), 50) ∷ (deletes (deletion true), 60) ∷ []

use_after_retirement_example :
    (e : Error) × ((e ≡ bare not_found) ⊎ (e ≡ bare already_retired))
    × (use_credential cloud use_request 70 (
          perform_all cloud afterwards
            (retire cloud (retirement_request true) 30 (holding active)).1)
        ≡ (
          err e,
          perform_all cloud afterwards
              (retire cloud (retirement_request true) 30 (holding active)).1,
        ))
unfolding validate_retire_request lookup insert trim_space
use_after_retirement_example =
    use_after_retirement cloud (retirement_request true) 30 (holding active) (billing active)
      (billing active) tt afterwards use_request 70 whole.at_rest refl refl refl refl refl refl
      (tt, (tt, (tt, tt))) refl

perform-Grown_example :
    Grown "billing"
      (holding active).store
      (perform cloud (rotates (rotation false)) 10 (holding active)).store
perform-Grown_example =
    perform-Grown cloud (rotates (rotation false)) 10 (holding active) "billing" whole.at_rest tt

perform-others_example :
    SameAt "payroll"
      (holding active).store
      (perform cloud (retires (retirement_request true)) 10 (holding active)).store
perform-others_example =
    perform-others cloud (retires (retirement_request true)) 10 (holding active) "billing" "payroll"
      whole.at_rest refl (apart "billing" "payroll" refl)

holding-Keyed : Keyed (holding active).store.identities
unfolding lookup insert
holding-Keyed = (refl, tt)

restore-snapshot_example :
    lookup "billing" (restore (snapshot (holding active).store)).identities
    ≡ lookup "billing" (holding active).store.identities
restore-snapshot_example =
    restore-snapshot "billing" (holding active).store holding-Keyed whole.at_rest
