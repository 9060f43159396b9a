-- ===== src/Lifecycle/Rotate/Section.antt =====
-- The store after the critical section of a rotation.
use mutandae.Prelude.{◌+◌, ◌≡◌, refl, length, arith}
use mutandae.Protocol.{MachineIdentity, RotationRun, RotateRequest, Time, or_operator}
use mutandae.Protocol.Errors.{Error, Result, ok, err}
use mutandae.Protocol.Iso8601.{parse_iso8601_duration}
use mutandae.Lifecycle.Env.{Env}
use mutandae.Lifecycle.Store.{
  add_event, append_event, run_id, runs_of, put_identity, push_run, set_run,
}
use mutandae.Lifecycle.Store.Laws.{store-persist}
use mutandae.Lifecycle.Errors.{provider_operation_error}
use mutandae.Lifecycle.Store.Snapshots.{persist}
use mutandae.Lifecycle.Store.Monad.{Store, Sys, raise, ◌>>=◌}
use mutandae.Lifecycle.Rotate.{
  begin_rotation, settle_rotation, rotation_section, started_run, requested_event, started_event,
  failed_event, completed_event, failed_run, succeeded_run, renewing_of, failed_of, renewed_of,
  or_zero,
}

module _ (req : RotateRequest) (now : Time) (v : MachineIdentity) where
  abbrev pub fresh_run : Store → RotationRun
  fresh_run st = started_run (run_id (st.next_run + 1)) v (or_operator req.requested_by) now

  -- The store with the rotation under way.
  abbrev pub begun : Store → Store
  begun st = append_event (started_event req v now (fresh_run st).id) (
      append_event (requested_event req v now (fresh_run st).id) (
        put_identity v.id (renewing_of v)
          (push_run v.id (fresh_run st) (record st { next_run = st.next_run + 1 }))))

  abbrev pub after_failure : Error → Store → Store
  after_failure e st = append_event (failed_event v (fresh_run st) now e) (
      set_run v.id (length (runs_of v.id st)) (failed_run (fresh_run st) now e)
        (put_identity v.id (failed_of v) (begun st)))

  abbrev pub renewal : MachineIdentity → MachineIdentity
  renewal view =
      renewed_of req.id (or_zero (parse_iso8601_duration v.policy.renewal_period)) view now

  abbrev pub after_success : MachineIdentity → Store → Store
  after_success view st = append_event (completed_event (renewal view) (fresh_run st) now) (
      set_run req.id (length (runs_of v.id st))
        (succeeded_run (fresh_run st) now (renewal view).credential)
        (put_identity req.id (renewal view) (begun st)))

  abbrev pub after_answer : Result MachineIdentity → Store → Store
  after_answer (ok view) st = after_success view st
  after_answer (err e) st = after_failure e st

  module _ {W : Type 0} (E : Env W) (s : Sys W) where
    -- What the adapter answers when it is asked.
    abbrev pub answer : Result MachineIdentity × W
    answer = E.adapter.rotate (renewing_of v) (begin_rotation E req now v s).1.world

    abbrev under : Store → W → Sys W
    under st w = record { store = st; world = w }

    -- What stands after saving, and whatever it answers.
    persist_then_raise :
        (e : Error) (t : Sys W)
        → ((persist E >>= λ _. raise {A = MachineIdentity × RotationRun} e) t).1.store ≡ t.store
    persist_then_raise e t = ground (arith, store-persist E t)

    store-settle_rotation :
        (r : Result MachineIdentity) (st : Store) (w : W)
        → (settle_rotation E req.id v
            (fresh_run st)
            (length (runs_of v.id st))
            now
            r
            (under (begun st) w)).1.store
          ≡ after_answer r st
    unfolding settle_rotation add_event
    store-settle_rotation (ok view) st w = refl
    store-settle_rotation (err e) st w = persist_then_raise (provider_operation_error e) _

    pub store-rotation_section :
        (rotation_section E req now v s).1.store ≡ after_answer answer.0 s.store
    unfolding rotation_section begin_rotation add_event
    store-rotation_section = store-settle_rotation answer.0 s.store answer.1
