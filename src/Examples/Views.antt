-- ===== src/Examples/Views.antt =====
-- The properties of readers, of replies and of a late write, on concrete stores.
use mathlib.Core.List.{Permᴰ}
use mutandae.Prelude.{
  ◌⊎◌, filter, values, not, none, ◌==◌, ◌≡◌, refl, lookup, insert, trim_space, some, none, true,
  false, List,
}
use mutandae.Protocol.{
  state_eq, MachineIdentity, RotateResponse, LifecycleEvent, active, renewing, retired,
  no_credential,
}
use mutandae.Protocol.Errors.{ok, err, plain}
use mutandae.Lifecycle.Queries.{list, events}
use mutandae.Lifecycle.Queries.Order.{Sorted, Sooner, Newer, list_lem, events_lem}
use mutandae.Lifecycle.Retire.{retire}
use mutandae.Lifecycle.Rotate.{
  rotate, rotation_section, begin_rotation, settle_rotation, complete_rotation, record_references,
}
use mutandae.Lifecycle.Env.{Env}
use mutandae.Lifecycle.Errors.{provider_operation_error, Reported}
use mutandae.Lifecycle.Rotate.Reply.{Answers, rotate_replies, rotate_fails}
use mutandae.Lifecycle.Rotate.Trail.{final_run}
use mutandae.Lifecycle.Store.Snapshots.{persist}
use mutandae.Protocol.Validation.{validate_rotate_request}
use mutandae.Lifecycle.Rotate.Late.{late_write_revives}
use mutandae.Lifecycle.Rotate.Section.{renewal, after_answer}
use mutandae.Lifecycle.Store.{events_of, add_event}
use mutandae.Lifecycle.Store.Monad.{Store, Sys}
use mutandae.Examples.{cloud, holding, billing, rotation, retirement_request, copy, World}

-- The store behind one rotation.
abbrev rotated_once : Store
rotated_once =
    after_answer (rotation false) 10 (billing active) (ok (billing active)) (holding active).store

-- A rotation whose secret is still to be delivered, and a retirement in between.
abbrev renewed : MachineIdentity
renewed =
    renewal (rotation false) 10 (billing active)
      (record (billing renewing) { credential = record no_credential { key_id = "k2" } })

abbrev retired_meanwhile : Sys World
retired_meanwhile =
    (retire cloud (retirement_request true) 20
      (rotation_section cloud (rotation false) 10 (billing active) (holding active)).1).1

list_lem_example :
    Sorted Sooner (list false (holding retired).store)
    × Permᴰ
        (list false (holding retired).store)
        (filter (λ v. not (v.state == retired)) (values (holding retired).store.identities))
    × Sorted Sooner (list true (holding retired).store)
    × Permᴰ (list true (holding retired).store) (values (holding retired).store.identities)
list_lem_example = list_lem (holding retired).store

events_lem_example :
    ((lookup "billing" rotated_once.identities ≡ none) × (events "billing" rotated_once ≡ none))
    ⊎ ((es : List LifecycleEvent) × (events "billing" rotated_once ≡ some es)
        × Sorted Newer es
        × Permᴰ es (events_of "billing" rotated_once))
events_lem_example = events_lem "billing" rotated_once

late_write_revives_example :
    (u : MachineIdentity) × (lookup "billing"
        (record_references renewed (some copy) none 30 retired_meanwhile).1.identities
      ≡ some u)
    × (u.state ≡ active)
unfolding rotation_section begin_rotation settle_rotation complete_rotation add_event
late_write_revives_example =
    late_write_revives cloud (rotation false) 10 30 (billing active) renewed _ (holding active)
      retired_meanwhile copy none refl

-- Without a database saving succeeds.
cloud_saves : (t : Sys World) → (persist cloud t).0 ≡ ok tt
unfolding persist
cloud_saves t = refl

abbrev second_key : MachineIdentity
second_key = record (billing renewing) { credential = record no_credential { key_id = "k2" } }

rotate_replies_example :
    (reply : RotateResponse) × ((rotate cloud (rotation false) 10 (holding active)).0 ≡ ok reply)
    × Answers renewed
        (final_run (rotation false) 10 (billing active) (holding active).store (ok second_key))
        reply
unfolding validate_rotate_request lookup insert trim_space
rotate_replies_example =
    rotate_replies cloud 10 cloud_saves (rotation false) (billing active) (holding active)
      second_key refl refl (refl, refl) refl

-- The provider is down.
abbrev down : Env World
down = record cloud { adapter = record cloud.adapter { rotate = λ v w. (err (plain "503"), w) } }

down_saves : (t : Sys World) → (persist down t).0 ≡ ok tt
unfolding persist
down_saves t = refl

rotate_fails_example :
    ((rotate down (rotation false) 10 (holding active)).0
      ≡ err (provider_operation_error (plain "503")))
    × Reported (plain "503") (provider_operation_error (plain "503"))
unfolding validate_rotate_request lookup insert trim_space
rotate_fails_example =
    rotate_fails down 10 down_saves (rotation false) (billing active) (holding active) (plain "503")
      refl refl (refl, refl) refl
