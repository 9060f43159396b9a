-- ===== src/Lifecycle/Sweep.antt =====
-- `Sweep` and `sweepLeader` of internal/lifecycle/worker.go, with the lease as an interface. The
-- workers take the candidates from a channel; here one worker takes them in their order. `stop` says
-- whether the context is done before the sweep returns: the number of candidates that the worker has
-- gone on to rotate by then, and the context's error. The log is left out. `clock` gives the time of each rotation, by
-- its number.
pub mod Accounts
pub mod Spared
use mutandae.Prelude.{
  ℕ, zero, suc, ◌++◌, ◌+◌, ◌-◌, ◌/◌, String, Bool, true, false, ◌&&◌, ◌||◌, not, Option, none, some,
  List, [], ◌∷◌, Dict, lookup, insert, length, ltb, ◌==◌, nat_eq, if◌then◌else◌, decimal, ◌<>◌,
}
use mutandae.Protocol.{
  MachineIdentity, RotateRequest, RotateResponse, Time, Duration, Urgency, urgency_overdue, active,
  state_eq,
}
use mutandae.Protocol.Errors.{Error, Result, ok, err}
use mutandae.Lifecycle.Env.{Env, Call}
use mutandae.Lifecycle.Queries.{list, compute_urgency}
use mutandae.Lifecycle.Rotate.{rotate}
use mutandae.Lifecycle.Store.Monad.{Sys}

-- `LeaseManager`, but for its renewal.
pub record Lease (W : Type 0) : Type 0 where
  pub try_acquire : Call W Bool
  pub release : Call W (Unit {0})

-- The state of the worker.
pub record Sweeper : Type 0 where
  pub interval : Duration
  pub last_attempt : Dict Time
  pub sweep_seq : ℕ

pub record SweepResult : Type 0 where
  pub leader : Bool
  pub considered : ℕ
  pub rotated : ℕ
  pub skipped : ℕ
  pub failures : List (String × Error)

abbrev pub no_sweep : SweepResult
no_sweep = record { leader = false; considered = 0; rotated = 0; skipped = 0; failures = [] }

abbrev pub retry_window : Duration → Duration
retry_window interval = let w = interval / 4 in if w == 0 then 1 else w

abbrev pub is_overdue : Urgency → Bool
is_overdue urgency_overdue = true
is_overdue _ = false

abbrev pub tried_lately : Duration → Time → Option Time → Bool
tried_lately window now none = false
tried_lately window now (some last) = ltb now last || ltb (now - last) window

-- The three tests of the loop.
abbrev pub ready : Duration → Time → Dict Time → MachineIdentity → Bool
ready window now last v =
    (v.state == active)
    && is_overdue (compute_urgency v now)
    && not (tried_lately window now (lookup v.id last))

pub record Selection : Type 0 where
  pub attempts : Dict Time
  pub candidates : List MachineIdentity
  pub passed_over : ℕ

unfoldable pub choose : Duration → Time → List MachineIdentity → Dict Time → Selection
choose window now [] last = record { attempts = last; candidates = []; passed_over = 0 }
choose window now (v ∷ vs) last =
    let picked = ready window now last v in
    let rest = choose window now vs (if picked then insert v.id now last else last) in
    if picked
    then record rest { candidates = v ∷ rest.candidates }
    else record rest { passed_over = rest.passed_over + 1 }

abbrev pub Stop : Type 0
Stop = Option (ℕ × Error)

abbrev pub first_jobs : ℕ → List MachineIdentity → List MachineIdentity
first_jobs zero vs = []
first_jobs (suc n) [] = []
first_jobs (suc n) (v ∷ vs) = v ∷ first_jobs n vs

-- The candidates that are rotated.
abbrev pub taken : Stop → List MachineIdentity → List MachineIdentity
taken none vs = vs
taken (some (n, e)) vs = first_jobs n vs

-- Without a candidate the context is not looked at.
abbrev pub stop_error : Stop → List MachineIdentity → Option Error
stop_error none vs = none
stop_error (some (n, e)) [] = none
stop_error (some (n, e)) (v ∷ vs) = some e

-- `errors.Join` of two.
abbrev join_errors : Option Error → Option Error → Option Error
join_errors none b = b
join_errors (some a) none = some a
join_errors (some a) (some b) =
    some (record { chain = a.chain ++ b.chain; text = a.text <> "\n" <> b.text })

abbrev pub sweep_request : MachineIdentity → ℕ → RotateRequest
sweep_request v n = record {
  id = v.id;
  requested_by = "system:sweeper";
  reason = "scheduled renewal sweep " <> decimal n;
  metadata = [];
  dry_run = false;
}

pub record Jobs (W : Type 0) : Type 0 where
  pub done : ℕ
  pub failed_jobs : List (String × Error)
  pub seq : ℕ
  pub sys : Sys W

module _ {W : Type 0} where
  abbrev pub tally : String → Result RotateResponse → Jobs W → Jobs W
  tally id (ok reply) rest = record rest { done = rest.done + 1 }
  tally id (err e) rest = record rest { failed_jobs = (id, e) ∷ rest.failed_jobs }

module _ {W : Type 0} (E : Env W) (clock : ℕ → Time) where
  unfoldable pub run_jobs : List MachineIdentity → ℕ → Sys W → Jobs W
  run_jobs [] n s = record { done = 0; failed_jobs = []; seq = n; sys = s }
  run_jobs (v ∷ vs) n s =
      let (r, s') = rotate E (sweep_request v (n + 1)) (clock (n + 1)) s in
      tally v.id r (run_jobs vs (n + 1) s')

  abbrev pub chosen : Time → Sweeper → Sys W → Selection
  chosen now sw s = choose (retry_window sw.interval) now (list false s.store) sw.last_attempt

  unfoldable pub sweep_leader :
      Stop → Time → Sweeper → Sys W → (SweepResult × Option Error) × Sweeper × Sys W
  unfolding choose run_jobs
  sweep_leader stop now sw s =
      let c = chosen now sw s in
      let jobs = run_jobs (taken stop c.candidates) sw.sweep_seq s in
      (
        (
          record {
            leader = true;
            considered = length c.candidates;
            rotated = jobs.done;
            skipped = c.passed_over;
            failures = jobs.failed_jobs;
          },
          stop_error stop c.candidates,
        ),
        record sw { last_attempt = c.attempts; sweep_seq = jobs.seq },
        jobs.sys,
      )

  -- The lease is released behind the sweep, and a failure to release it joins the error.
  released : Result (Unit {0}) → Option Error
  released (ok _) = none
  released (err e) = some e

  led :
      Lease W
      → Stop
      → Time
      → Sweeper
      → Result Bool
      → Sys W
      → (SweepResult × Option Error) × Sweeper × Sys W
  unfolding sweep_leader released
  led lease stop now sw (err e) s = ((no_sweep, some e), sw, s)
  led lease stop now sw (ok false) s = ((no_sweep, none), sw, s)
  led lease stop now sw (ok true) s =
      let ((result, stopped), sw', s') = sweep_leader stop now sw s in
      let (r, w) = lease.release s'.world in
      ((result, join_errors stopped (released r)), sw', record s' { world = w })

  unfoldable pub sweep :
      Lease W → Stop → Time → Sweeper → Sys W → (SweepResult × Option Error) × Sweeper × Sys W
  unfolding led
  sweep lease stop now sw s =
      let (r, w) = lease.try_acquire s.world in led lease stop now sw r (record s { world = w })
