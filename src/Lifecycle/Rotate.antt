-- ===== src/Lifecycle/Rotate.antt =====
-- `Rotate` of internal/lifecycle/lifecycle.go, by its critical sections.
pub mod Guards
pub mod Delivery
pub mod Induction
pub mod Late
pub mod Rest
pub mod Reply
pub mod Answered
pub mod Section
pub mod Trail
use mutandae.Prelude.{
  ℕ, suc, ◌+◌, String, Bool, true, false, not, Option, none, some, List, [], ◌∷◌, lookup, length,
  ◌==◌, string_eq, if◌then◌else◌, ◌<>◌,
}
use mutandae.Protocol.{
  MachineIdentity, LifecycleEvent, RotationRun, CredentialReference, EventType, Outcome, Metadata,
  Time, Duration, VaultReference, RotateRequest, RotateResponse, State, active, renewing, retired,
  state_eq, state_text, healthy, attention, running, succeeded, failed, success, failure,
  in_progress, rotation_requested, rotation_started, rotation_completed, rotation_failed,
  actor_control_plane, actor_provider_adapter, or_operator, no_credential,
}
use mutandae.Protocol.Errors.{
  Error, Result, ok, err, bare, wrap, not_found, already_retired, rotation_in_progress,
  invalid_transition,
}
use mutandae.Protocol.Transitions.{can_transition}
use mutandae.Protocol.Iso8601.{parse_iso8601_duration}
use mutandae.Protocol.Validation.{validate_rotate_request}
use mutandae.Lifecycle.Env.{Env}
use mutandae.Lifecycle.Errors.{provider_operation_error}
use mutandae.Lifecycle.Plans.{plan}
use mutandae.Lifecycle.Store.{
  Draft, add_event, run_id, events_of, runs_of, put_identity, push_run, set_run,
}
use mutandae.Lifecycle.Store.Monad.{
  Store, Sys, Action, ask, gets, lift, modify, modify_world, pure, raise, refuse, ◌>>=◌, ◌>>◌,
}
use mutandae.Lifecycle.Store.Snapshots.{persist}
use mutandae.Lifecycle.Vaults.{
  deliver_to_vault, mirror_to_common_vault, with_vault_metadata, with_common_vault_metadata,
}

-- `identity, ok := s.identities[id]`
abbrev pub found : {W : Type 0} → Option MachineIdentity → Action W MachineIdentity
found none = raise (bare not_found)
found (some identity) = pure identity

abbrev pub require_known : {W : Type 0} → String → Action W MachineIdentity
require_known id s = found (lookup id s.identities) s

-- The events of one rotation carry its run.
abbrev rotation_event :
    MachineIdentity → Time → String → EventType → String → String → Outcome → Metadata → Draft
rotation_event identity now run kind summary actor outcome details = record {
  identity_id = identity.id;
  at = now;
  event_type = kind;
  summary = summary;
  actor = actor;
  outcome = outcome;
  details = details;
  run_id = run;
}

-- `parsed, _ := ParseISO8601Duration(…)`
abbrev pub or_zero : Result Duration → Duration
or_zero (ok d) = d
or_zero (err e) = 0

-- A sweeper signs all events of its rotations.
abbrev pub sweeper_or : String → String → String
sweeper_or operator actor = if operator == "system:sweeper" then operator else actor

-- The identity that the adapter gets.
abbrev pub renewing_of : MachineIdentity → MachineIdentity
renewing_of identity = record identity { state = renewing }

abbrev pub failed_of : MachineIdentity → MachineIdentity
failed_of identity = record identity { state = active; health = attention }

-- What the provider returned, under the store's id, state, health and times.
abbrev pub renewed_of : String → Duration → MachineIdentity → Time → MachineIdentity
renewed_of id period view now = record view {
  id = id;
  state = active;
  health = healthy;
  expires_at = now + period;
  last_rotated_at = now;
  updated_at = now;
}

abbrev pub started_run : String → MachineIdentity → String → Time → RotationRun
started_run run identity operator now = record {
  id = run;
  identity_id = identity.id;
  status = running;
  requested_by = operator;
  requested_at = now;
  started_at = now;
  finished_at = 0;
  outcome = none;
  evidence = no_credential;
  error = "";
}

abbrev pub rotate_reply : RotationRun → MachineIdentity → List LifecycleEvent → RotateResponse
rotate_reply run identity events = record {
  identity = identity;
  rotation = some run;
  events = events;
  plan = none;
}

abbrev pub failed_run : RotationRun → Time → Error → RotationRun
failed_run run now e = record run {
  status = failed;
  outcome = some failure;
  finished_at = now;
  error = e.text;
}

abbrev pub succeeded_run : RotationRun → Time → CredentialReference → RotationRun
succeeded_run run now evidence = record run {
  status = succeeded;
  outcome = some success;
  finished_at = now;
  evidence = evidence;
}

abbrev pub requested_event : RotateRequest → MachineIdentity → Time → String → Draft
requested_event req identity now run =
    rotation_event identity now run rotation_requested
      ("Rotation requested by " <> or_operator req.requested_by) (or_operator req.requested_by)
      in_progress (("reason", req.reason) ∷ [])

abbrev pub started_event : RotateRequest → MachineIdentity → Time → String → Draft
started_event req identity now run =
    rotation_event identity now run rotation_started
      ("Rotation dispatched to " <> identity.provider.provider)
      (sweeper_or (or_operator req.requested_by) actor_control_plane) in_progress []

abbrev pub failed_event : MachineIdentity → RotationRun → Time → Error → Draft
failed_event identity run now e =
    rotation_event identity now run.id rotation_failed
      ("Rotation failed at the provider: " <> e.text)
      (sweeper_or run.requested_by actor_provider_adapter) failure []

abbrev pub completed_event : MachineIdentity → RotationRun → Time → Draft
completed_event identity run now =
    rotation_event identity now run.id rotation_completed
      "New credential verified against provider state"
      (sweeper_or run.requested_by actor_provider_adapter) success
      (("key_id", identity.credential.key_id)
        ∷ ("fingerprint", identity.credential.fingerprint)
        ∷ [])

-- `identity.Metadata` with the references that there are.
abbrev pub with_references :
    MachineIdentity → Option VaultReference → Option VaultReference → MachineIdentity
with_references identity none none = identity
with_references identity (some native) none = record identity {
  metadata = with_vault_metadata identity.metadata native;
}
with_references identity none (some common) = record identity {
  metadata = with_common_vault_metadata identity.metadata common;
}
with_references identity (some native) (some common) = record identity {
  metadata = with_common_vault_metadata (with_vault_metadata identity.metadata native) common;
}

module _ {W : Type 0} where
  -- The critical section that writes the references, where there is one.
  unfoldable pub record_references :
      MachineIdentity
      → Option VaultReference
      → Option VaultReference
      → Time
      → Action W MachineIdentity
  record_references identity none none now = pure identity
  record_references identity native common now =
      let identity' = record (with_references identity native common) { updated_at = now } in
      modify (put_identity identity'.id identity') >> pure identity'

  unfoldable pub rotate_guards : RotateRequest → Action W MachineIdentity
  rotate_guards req = do
    lift (validate_rotate_request req)
    identity ← require_known req.id
    refuse (identity.state == retired) (bare already_retired)
    refuse (identity.state == renewing) (bare rotation_in_progress)
    refuse (not (can_transition identity.state renewing))
        (wrap invalid_transition (state_text identity.state <> " -> renewing"))
    pure identity

module _ {W : Type 0} (E : Env W) where
  -- The run is allocated, the identity marked, and both are audited.
  unfoldable pub begin_rotation :
      RotateRequest → Time → MachineIdentity → Action W (RotationRun × ℕ)
  begin_rotation req now identity s =
      let n = s.next_run + 1 in
      let run = started_run (run_id n) identity (or_operator req.requested_by) now in
      let index = length (runs_of identity.id s.store) in
      (modify (λ st. record st { next_run = n })
          >> modify (push_run identity.id run)
          >> modify (put_identity identity.id (renewing_of identity))
          >> add_event E (requested_event req identity now (run_id n))
          >> add_event E (started_event req identity now (run_id n))
          >> pure (run, index))
        s

  -- The adapter failed.
  unfoldable pub fail_rotation :
      MachineIdentity → RotationRun → ℕ → Time → Error → Action W (MachineIdentity × RotationRun)
  fail_rotation identity run index now e = do
    modify (put_identity identity.id (failed_of identity))
    modify (set_run identity.id index (failed_run run now e))
    add_event E (failed_event identity run now e)
    persist E
    raise (provider_operation_error e)

  -- The adapter returned its view of the identity.
  unfoldable pub complete_rotation :
      String
      → MachineIdentity
      → RotationRun
      → ℕ
      → Time
      → MachineIdentity
      → Action W (MachineIdentity × RotationRun)
  complete_rotation id identity run index now view =
      let period = or_zero (parse_iso8601_duration identity.policy.renewal_period) in
      let identity' = renewed_of id period view now in
      let run' = succeeded_run run now identity'.credential in
      modify (put_identity id identity')
      >> modify (set_run id index run')
      >> add_event E (completed_event identity' run now)
      >> pure (identity', run')

  unfoldable pub settle_rotation :
      String
      → MachineIdentity
      → RotationRun
      → ℕ
      → Time
      → Result MachineIdentity
      → Action W (MachineIdentity × RotationRun)
  unfolding fail_rotation complete_rotation
  settle_rotation id identity run index now (err e) = fail_rotation identity run index now e
  settle_rotation id identity run index now (ok view) =
      complete_rotation id identity run index now view

  -- The first critical section, from the allocation of the run on: the store stays locked during
  -- the call of the adapter.
  unfoldable pub rotation_section :
      RotateRequest → Time → MachineIdentity → Action W (MachineIdentity × RotationRun)
  unfolding begin_rotation settle_rotation
  rotation_section req now identity = do
    (run, index) ← begin_rotation req now identity
    result ← ask (E.adapter.rotate (renewing_of identity))
    settle_rotation req.id identity run index now result

  -- The vault deliveries of the secret that the adapter hands over once.
  deliver_secret : MachineIdentity → Time → String → Action W MachineIdentity
  unfolding record_references
  deliver_secret identity now secret = if secret == "" then pure identity else do
    native ← deliver_to_vault E identity identity.credential.key_id secret now
    common ← mirror_to_common_vault E identity identity.credential.key_id secret now
    record_references identity native common now

  deliver_issued :
      Option (String → W → String × W) → MachineIdentity → Time → Action W MachineIdentity
  unfolding deliver_secret
  deliver_issued none identity now s = (ok identity, s)
  deliver_issued (some consume) identity now s =
      let (secret, w) = consume identity.provider.provider s.world in
      deliver_secret identity now secret (record s { world = w })

  unfoldable pub deliver_renewed : MachineIdentity → Time → Action W MachineIdentity
  unfolding deliver_issued
  deliver_renewed = deliver_issued E.adapter.consume_one_time_secret

  -- What follows the critical section of a successful rotation.
  unfoldable pub rotate_rest : Time → MachineIdentity × RotationRun → Action W RotateResponse
  rotate_rest now (renewed, run) = do
    identity ← deliver_renewed renewed now
    persist E
    events ← gets (λ s. events_of identity.id s.store)
    pure (rotate_reply run identity events)

  unfoldable pub rotate_apply : RotateRequest → Time → MachineIdentity → Action W RotateResponse
  unfolding rotation_section deliver_renewed rotate_rest
  rotate_apply req now identity = rotation_section req now identity >>= rotate_rest now

  unfoldable pub rotate_dry_run : MachineIdentity → Action W RotateResponse
  rotate_dry_run identity = do
    planned ← plan E identity true
    pure (record { identity = identity; rotation = none; events = []; plan = some planned })

  unfoldable pub rotate : RotateRequest → Time → Action W RotateResponse
  unfolding rotate_guards rotate_dry_run rotate_apply
  rotate req now = do
    identity ← rotate_guards req
    if req.dry_run then rotate_dry_run identity else rotate_apply req now identity
