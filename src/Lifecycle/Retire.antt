-- ===== src/Lifecycle/Retire.antt =====
-- `Retire` and `Delete` of internal/lifecycle/lifecycle.go, by their critical sections.
pub mod Answered
pub mod Erased
pub mod Guards
pub mod Induction
use mutandae.Prelude.{
  String, Bool, true, false, not, ◌&&◌, Option, none, some, List, [], ◌∷◌, delete, is_some, lookup,
  ◌==◌, string_eq, if◌then◌else◌, ◌<>◌,
}
use mutandae.Protocol.{
  MachineIdentity, LifecycleEvent, Time, RetireRequest, RetireResponse, DeleteRequest,
  DeleteResponse, retired, state_eq, state_text, attention, success, identity_retired,
  identity_deleted, or_operator,
}
use mutandae.Protocol.Errors.{
  Error, Result, ok, err, bare, wrap, not_found, already_retired, not_retired, invalid_transition,
  confirmation_needed,
}
use mutandae.Protocol.Transitions.{can_transition}
use mutandae.Protocol.Validation.{validate_retire_request}
use mutandae.Lifecycle.Env.{Env}
use mutandae.Lifecycle.Errors.{provider_operation_error}
use mutandae.Lifecycle.Plans.{plan}
use mutandae.Lifecycle.Rotate.{require_known}
use mutandae.Lifecycle.Store.{Draft, add_event, events_of, put_identity}
use mutandae.Lifecycle.Store.Monad.{
  Store, Sys, Action, ask, gets, lift, modify, pure, raise, refuse, ◌>>=◌, ◌>>◌,
}
use mutandae.Lifecycle.Store.Snapshots.{persist}
use mutandae.Lifecycle.Vaults.{revoke_from_vault, revoke_from_common_vault}

-- What the provider returned, under the store's id, as a retired identity.
abbrev pub retired_of : String → MachineIdentity → Time → MachineIdentity
retired_of id view now = record view {
  id = id;
  state = retired;
  health = attention;
  updated_at = now;
}

abbrev pub retired_event : RetireRequest → MachineIdentity → Time → Draft
retired_event req identity now = record {
  identity_id = identity.id;
  at = now;
  event_type = identity_retired;
  summary = "Retired " <> identity.name <> " (" <> req.reason <> ")";
  actor = or_operator req.requested_by;
  outcome = success;
  details = [];
  run_id = "";
}

abbrev pub deleted_event : DeleteRequest → MachineIdentity → Time → Draft
deleted_event req identity now = record {
  identity_id = identity.id;
  at = now;
  event_type = identity_deleted;
  summary =
      "Permanently deleted " <> identity.name <> " and its audit trail from the control plane ("
      <> req.reason <> ")";
  actor = or_operator req.requested_by;
  outcome = success;
  details = ("reason", req.reason) ∷ ("state", state_text identity.state) ∷ [];
  run_id = "";
}

-- The three maps lose the key.
abbrev pub purge : String → Store → Store
purge id st = record st {
  identities = delete id st.identities;
  events = delete id st.events;
  runs = delete id st.runs;
}

abbrev pub retire_reply : MachineIdentity → List LifecycleEvent → RetireResponse
retire_reply identity events = record { identity = identity; events = events; plan = none }

abbrev pub delete_reply : MachineIdentity → List LifecycleEvent → DeleteResponse
delete_reply identity events = record { deleted = true; identity = identity; events = events }

module _ {W : Type 0} where
  unfoldable pub retire_guards : RetireRequest → Action W MachineIdentity
  retire_guards req = do
    lift (validate_retire_request req)
    refuse (not req.dry_run && not req.confirm) (bare confirmation_needed)
    identity ← require_known req.id
    refuse (identity.state == retired) (bare already_retired)
    refuse (not (can_transition identity.state retired))
        (wrap invalid_transition (state_text identity.state <> " -> retired"))
    pure identity

  unfoldable pub delete_guards : DeleteRequest → Action W MachineIdentity
  delete_guards req = do
    refuse (not req.confirm) (bare confirmation_needed)
    identity ← require_known req.id
    refuse (not (identity.state == retired)) (wrap not_retired (state_text identity.state))
    pure identity

module _ {W : Type 0} (E : Env W) where
  settle_retirement : RetireRequest → Time → Result MachineIdentity → Action W MachineIdentity
  settle_retirement req now (err e) = raise (provider_operation_error e)
  settle_retirement req now (ok view) =
      let identity = retired_of req.id view now in
      modify (put_identity identity.id identity)
      >> add_event E (retired_event req identity now)
      >> persist E
      >> pure identity

  -- The first critical section, behind the guards: the store stays locked during the call of the
  -- adapter.
  unfoldable pub retirement_section :
      RetireRequest → Time → MachineIdentity → Action W MachineIdentity
  unfolding settle_retirement
  retirement_section req now identity = do
    result ← ask (E.adapter.retire identity)
    settle_retirement req now result

  -- `revokeFromVault` does nothing without a vault, so the test before its call is left out.
  unfoldable pub revoke_copies : MachineIdentity → Time → Action W (Unit {0})
  revoke_copies identity now = do
    revoke_from_vault E identity now
    revoke_from_common_vault E identity now

  -- What follows the critical section of a retirement.
  unfoldable pub retire_rest : Time → MachineIdentity → Action W RetireResponse
  unfolding revoke_copies
  retire_rest now identity = do
    revoke_copies identity now
    events ← gets (λ s. events_of identity.id s.store)
    pure (retire_reply identity events)

  unfoldable pub retire_apply : RetireRequest → Time → MachineIdentity → Action W RetireResponse
  unfolding retirement_section retire_rest
  retire_apply req now identity = retirement_section req now identity >>= retire_rest now

  unfoldable pub retire_dry_run : MachineIdentity → Action W RetireResponse
  retire_dry_run identity = do
    planned ← plan E identity false
    pure (record { identity = identity; events = []; plan = some planned })

  unfoldable pub retire : RetireRequest → Time → Action W RetireResponse
  unfolding retire_guards retire_dry_run retire_apply
  retire req now = do
    identity ← retire_guards req
    if req.dry_run then retire_dry_run identity else retire_apply req now identity

  -- The last critical section: the record may be gone by then.
  unfoldable pub deletion_section :
      DeleteRequest → Time → MachineIdentity → Action W (List LifecycleEvent)
  deletion_section req now identity = do
    require_known req.id
    add_event E (deleted_event req identity now)
    events ← gets (λ s. events_of identity.id s.store)
    modify (purge identity.id)
    persist E
    pure events

  unfoldable pub delete_rest : DeleteRequest → Time → MachineIdentity → Action W DeleteResponse
  unfolding revoke_copies deletion_section
  delete_rest req now identity = do
    revoke_copies identity now
    events ← deletion_section req now identity
    pure (delete_reply identity events)

  unfoldable pub delete_identity : DeleteRequest → Time → Action W DeleteResponse
  unfolding delete_guards delete_rest
  delete_identity req now = delete_guards req >>= delete_rest req now
