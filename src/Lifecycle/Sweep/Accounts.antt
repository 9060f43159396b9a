-- ===== src/Lifecycle/Sweep/Accounts.antt =====
-- The counts of a sweep.
use mutandae.Prelude.{
  ℕ, zero, suc, none, some, refl, ◌⊎◌, ◌≤◌, ◌+◌, String, ◌≡◌, arith, ap, ◌∙◌, false, Bool-cases,
  inl, inr, List, [], ◌∷◌, length, Dict, insert,
}
use mutandae.Protocol.{MachineIdentity, Time, Duration, RotateResponse}
use mutandae.Protocol.Errors.{Error, Result, ok, err}
use mutandae.Lifecycle.Env.{Env}
use mutandae.Lifecycle.Queries.{list}
use mutandae.Lifecycle.Rotate.{rotate}
use mutandae.Lifecycle.Store.Monad.{Sys}
use mutandae.Lifecycle.Sweep.{
  Jobs, Stop, Sweeper, first_jobs, taken, stop_error, retry_window, choose, ready, run_jobs,
  sweep_leader, sweep_request, tally,
}

choose_counts :
    (window : Duration) (now : Time) (vs : List MachineIdentity) (last : Dict Time)
    → length (choose window now vs last).candidates + (choose window now vs last).passed_over
      ≡ length vs
unfolding choose
choose_counts window now [] last = omega arith
choose_counts window now (v ∷ vs) last = elim (Bool-cases (ready window now last v)) [
  | inl e ↦ rw e (omega (arith, choose_counts window now vs (insert v.id now last)))
  | inr e ↦ rw e (omega (arith, choose_counts window now vs last))
]

length-first_jobs : (k : ℕ) (vs : List MachineIdentity) → length (first_jobs k vs) ≤ length vs
length-first_jobs zero vs = omega arith
length-first_jobs (suc k) [] = omega arith
length-first_jobs (suc k) (v ∷ vs) = omega (arith, length-first_jobs k vs)

module _ {W : Type 0} (E : Env W) (clock : ℕ → Time) where
  tally_counts :
      (id : String) (r : Result RotateResponse) (jobs : Jobs W)
      → (tally id r jobs).done + length (tally id r jobs).failed_jobs
        ≡ suc (jobs.done + length jobs.failed_jobs)
  tally_counts id (ok reply) jobs = omega arith
  tally_counts id (err e) jobs = omega arith

  run_jobs_counts :
      (vs : List MachineIdentity) (n : ℕ) (s : Sys W)
      → (run_jobs E clock vs n s).done + length (run_jobs E clock vs n s).failed_jobs ≡ length vs
  unfolding run_jobs
  run_jobs_counts [] n s = omega arith
  run_jobs_counts (v ∷ vs) n s =
      let t = rotate E (sweep_request v (n + 1)) (clock (n + 1)) s in
      tally_counts v.id t.0 (run_jobs E clock vs (n + 1) t.1)
      ∙ ap suc (run_jobs_counts vs (n + 1) t.1)

  accounted :
      (stop : Stop) (vs : List MachineIdentity) (n : ℕ) (s : Sys W)
      → ((run_jobs E clock (taken stop vs) n s).done
            + length (run_jobs E clock (taken stop vs) n s).failed_jobs
          ≡ length vs)
        ⊎ ((k : ℕ) × (e : Error) × (stop ≡ some (k, e))
            × (stop_error stop vs ≡ some e)
            × ((run_jobs E clock (taken stop vs) n s).done
                  + length (run_jobs E clock (taken stop vs) n s).failed_jobs
                ≤ length vs))
  accounted none vs n s = inl (run_jobs_counts vs n s)
  accounted (some (k, e)) [] n s = inl (run_jobs_counts (first_jobs k []) n s ∙ empty k)
    where
      empty : (k : ℕ) → length (first_jobs k []) ≡ 0
      empty zero = refl
      empty (suc k) = refl
  accounted (some (k, e)) (v ∷ vs) n s = inr (
    k,
    e,
    refl,
    refl,
    omega (arith, run_jobs_counts (first_jobs k (v ∷ vs)) n s, length-first_jobs k (v ∷ vs)),
  )

  -- In the result of a sweep the considered and the skipped identities make up the list of
  -- identities. Either the rotated and the failed ones make up the considered ones, or the sweep
  -- returns the error of its context, which was done before, and they are at most as many.
  pub sweep_leader_lem :
      (stop : Stop) (now : Time) (sw : Sweeper) (s : Sys W)
      → ((sweep_leader E clock stop now sw s).0.0.considered
            + (sweep_leader E clock stop now sw s).0.0.skipped
          ≡ length (list false s.store))
        × (((sweep_leader E clock stop now sw s).0.0.rotated
                + length (sweep_leader E clock stop now sw s).0.0.failures
              ≡ (sweep_leader E clock stop now sw s).0.0.considered)
            ⊎ ((n : ℕ) × (e : Error) × (stop ≡ some (n, e))
                × ((sweep_leader E clock stop now sw s).0.1 ≡ some e)
                × ((sweep_leader E clock stop now sw s).0.0.rotated
                      + length (sweep_leader E clock stop now sw s).0.0.failures
                    ≤ (sweep_leader E clock stop now sw s).0.0.considered)))
  unfolding sweep_leader
  sweep_leader_lem stop now sw s = (
    choose_counts _ now (list false s.store) sw.last_attempt,
    accounted stop
        (choose (retry_window sw.interval) now (list false s.store) sw.last_attempt).candidates
        sw.sweep_seq s,
  )
