-- ===== src/Lifecycle/Store.antt =====
-- The state of `Store` in internal/lifecycle/lifecycle.go, and what all operations do with it.
pub mod Monad
pub mod Snapshots
pub mod Keeps
pub mod Numbers
pub mod Yields
pub mod Guarded
pub mod Tables
pub mod Laws
pub mod AtRest
pub mod Ids
pub mod RoundTrip
use mutandae.Prelude.{
  ℕ, zero, suc, ◌+◌, String, Bool, true, false, Option, none, some, List, [], ◌∷◌, ◌++◌, Dict,
  lookup, insert, delete, get_or, set, ◌<>◌, decimal_03,
}
use mutandae.Protocol.{
  MachineIdentity, LifecycleEvent, RotationRun, EventType, Outcome, Metadata, Time,
}
use mutandae.Protocol.Errors.{Error, Result, ok, err}
use mutandae.Lifecycle.Env.{Env, AuditSink}
use Monad.{Store, Sys, Action}

abbrev pub empty_store : Store
empty_store = record { identities = []; events = []; runs = []; next_event = 0; next_run = 0 }

abbrev pub event_id : ℕ → String
event_id n = "evt-" <> decimal_03 n

abbrev pub run_id : ℕ → String
run_id n = "run-" <> decimal_03 n

-- `s.events[id]`; a missing key reads as nil.
abbrev pub events_of : String → Store → List LifecycleEvent
events_of id st = get_or (lookup id st.events) []

abbrev pub runs_of : String → Store → List RotationRun
runs_of id st = get_or (lookup id st.runs) []

-- `s.identities[id] = identity`
abbrev pub put_identity : String → MachineIdentity → Store → Store
put_identity id identity st = record st { identities = insert id identity st.identities }

-- `s.runs[id] = append(s.runs[id], run)`
abbrev pub push_run : String → RotationRun → Store → Store
push_run id run st = record st { runs = insert id (runs_of id st ++ run ∷ []) st.runs }

-- `s.runs[id][index] = run`
abbrev pub set_run : String → ℕ → RotationRun → Store → Store
set_run id index run st = record st { runs = insert id (set (runs_of id st) index run) st.runs }

-- The arguments of `addEvent`.
pub record Draft : Type 0 where
  pub identity_id : String
  pub at : Time
  pub event_type : EventType
  pub summary : String
  pub actor : String
  pub outcome : Outcome
  pub details : Metadata
  pub run_id : String

-- Without a run both of its references stay empty.
abbrev pub event_of : ℕ → Draft → LifecycleEvent
event_of n d = record {
  id = event_id n;
  identity_id = d.identity_id;
  event_type = d.event_type;
  summary = d.summary;
  actor = d.actor;
  outcome = d.outcome;
  at = d.at;
  correlation_id = d.run_id;
  run_id = d.run_id;
  details = d.details;
}

abbrev pub append_event : Draft → Store → Store
append_event d st = record st {
  next_event = st.next_event + 1;
  events =
      insert d.identity_id (events_of d.identity_id st ++ event_of (st.next_event + 1) d ∷ [])
        st.events;
}

module _ {W : Type 0} where
  -- A failure of the sink is logged, if there is a logger, and otherwise forgotten.
  report : Option (LifecycleEvent → Error → W → W) → LifecycleEvent → Result (Unit {0}) × W → W
  report (some log) e (err x, w) = log e x w
  report _ e (r, w) = w

  unfoldable pub audit : Env W → LifecycleEvent → W → W
  unfolding report
  audit E e w = elim (E.audit_sink) [
    | none ↦ w
    | some sink ↦ report E.audit_logger e (AuditSink.append sink e w)
  ]

  unfoldable pub add_event : Env W → Draft → Action W (Unit {0})
  add_event E d s =
      let e = event_of (s.next_event + 1) d in
      (ok tt, record { store = append_event d s.store; world = audit E e s.world })
