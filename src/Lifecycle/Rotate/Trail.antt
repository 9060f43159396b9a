-- ===== src/Lifecycle/Rotate/Trail.antt =====
-- What a rotation that reaches the provider leaves behind.
use mutandae.Prelude.{
  ◌+◌, ◌≡◌, some, List, [], ◌∷◌, ◌++◌, lookup, lookup-insert, string_eq, eq_refl,
}
use mathlib.Core.List.{append_assoc}
use mutandae.Protocol.{MachineIdentity, RotationRun, LifecycleEvent, RotateRequest, Time}
use mutandae.Protocol.Errors.{Result, ok, err}
use mutandae.Lifecycle.Store.{Draft, event_of, events_of, runs_of}
use mutandae.Lifecycle.Store.Monad.{Store}
use mutandae.Lifecycle.Store.Tables.{set-append}
use mutandae.Lifecycle.Rotate.{
  requested_event, started_event, failed_event, completed_event, failed_run, succeeded_run,
  failed_of,
}
use mutandae.Lifecycle.Rotate.Section.{fresh_run, after_answer, renewal}

module _ (req : RotateRequest) (now : Time) (v : MachineIdentity) where
  abbrev pub final_identity : Result MachineIdentity → MachineIdentity
  final_identity (ok view) = renewal req now v view
  final_identity (err e) = failed_of v

  abbrev pub final_run : Store → Result MachineIdentity → RotationRun
  final_run st (ok view) =
      succeeded_run (fresh_run req now v st) now (renewal req now v view).credential
  final_run st (err e) = failed_run (fresh_run req now v st) now e

  abbrev pub final_event : Store → Result MachineIdentity → Draft
  final_event st (ok view) = completed_event (renewal req now v view) (fresh_run req now v st) now
  final_event st (err e) = failed_event v (fresh_run req now v st) now e

  -- The events of one rotation.
  abbrev pub rotation_trail : Store → Result MachineIdentity → List LifecycleEvent
  rotation_trail st r =
      let run = (fresh_run req now v st).id in
      event_of (st.next_event + 1) (requested_event req v now run)
      ∷ event_of (st.next_event + 1 + 1) (started_event req v now run)
      ∷ event_of (st.next_event + 1 + 1 + 1) (final_event st r)
      ∷ []

  module _ (own : v.id ≡ req.id) (st : Store) where
    pub identity-after :
        (r : Result MachineIdentity)
        → lookup req.id (after_answer req now v r st).identities ≡ some (final_identity r)
    identity-after (ok view) = simp (lookup-insert, own, eq_refl)
    identity-after (err e) = simp (lookup-insert, own, eq_refl)

    pub runs-after :
        (r : Result MachineIdentity)
        → runs_of req.id (after_answer req now v r st) ≡ runs_of req.id st ++ final_run st r ∷ []
    runs-after (ok view) = simp (lookup-insert, own, eq_refl) (set-append (runs_of req.id st) _ _)
    runs-after (err e) = simp (lookup-insert, own, eq_refl) (set-append (runs_of req.id st) _ _)

    pub events-after :
        (r : Result MachineIdentity)
        → events_of req.id (after_answer req now v r st)
          ≡ events_of req.id st ++ rotation_trail st r
    events-after (ok view) = simp (lookup-insert, own, eq_refl, append_assoc)
    events-after (err e) = simp (lookup-insert, own, eq_refl, append_assoc)
