-- ===== src/Lifecycle/Sweep/Spared.antt =====
-- What a sweep leaves alone.
use mathlib.Core.Path.{subst}
use mutandae.Prelude.{
  ℕ, zero, suc, none, some, ◌+◌, String, ◌≡◌, ◌≢◌, refl, sym, ◌∙◌, arith, true, false, Bool,
  Bool-cases, inl, inr, List, [], ◌∷◌, All, Dict, lookup, insert, lookup-insert, string_eq, eq_iff,
}
use mutandae.Protocol.{MachineIdentity, RotateResponse, Time, Duration}
use mutandae.Protocol.Errors.{Result, ok, err}
use mutandae.Lifecycle.Env.{Env}
use mutandae.Lifecycle.Operations.{rotates}
use mutandae.Lifecycle.Operations.Others.{SameAt, perform-others}
use mutandae.Lifecycle.Operations.Rest.{perform-AtRest}
use mutandae.Lifecycle.Queries.{list}
use mutandae.Lifecycle.Rotate.{rotate}
use mutandae.Lifecycle.Store.AtRest.{AtRest}
use mutandae.Lifecycle.Store.Monad.{Store, Sys}
use mutandae.Lifecycle.Sweep.{
  Jobs, Stop, first_jobs, taken, Lease, Sweeper, sweep, led, no_sweep, choose, ready, retry_window,
  run_jobs, sweep_leader, sweep_request, tally,
}

-- No identity of the list that has the id is ready.
abbrev pub Unready : Duration → Time → Dict Time → String → List MachineIdentity → Type 0
Unready window now last j = All (λ v. v.id ≡ j → ready window now last v ≡ false)

-- The test reads of the attempts those of the identity only.
ready-lookup :
    (window : Duration) (now : Time) (last last' : Dict Time) (v : MachineIdentity)
    → lookup v.id last ≡ lookup v.id last'
    → ready window now last v ≡ ready window now last' v
ready-lookup window now last last' v h = rw h refl

Unready-insert :
    (window : Duration) (now : Time) (last : Dict Time) (j i : String) (vs : List MachineIdentity)
    → i ≢ j
    → Unready window now last j vs
    → Unready window now (insert i now last) j vs
Unready-insert window now last j i [] ne h = tt
Unready-insert window now last j i (v ∷ vs) ne (p, h) = (
  (λ own. ready-lookup window now (insert i now last) last v (kept own) ∙ p own),
  Unready-insert window now last j i vs ne h,
)
  where
    kept : v.id ≡ j → lookup v.id (insert i now last) ≡ lookup v.id last
    kept own = ground (arith, lookup-insert i v.id now last, eq_iff i v.id, own, ne)

choose_spares :
    (window : Duration) (now : Time) (vs : List MachineIdentity) (last : Dict Time) (j : String)
    → Unready window now last j vs
    → All (λ v. v.id ≢ j) (choose window now vs last).candidates
unfolding choose
choose_spares window now [] last j h = tt
choose_spares window now (v ∷ vs) last j (p, h) = elim (Bool-cases (ready window now last v)) [
  | inl e ↦
      let ne : v.id ≢ j = λ own. apart (sym e ∙ p own) in
      rw e (
        ne,
        choose_spares window now vs (insert v.id now last) j
            (Unready-insert window now last j v.id vs ne h),
      )
  | inr e ↦ rw e (choose_spares window now vs last j h)
]
  where
    apart : true ≢ false
    apart q = cc

All-first_jobs :
    (P : MachineIdentity → Type 0) (n : ℕ) (vs : List MachineIdentity)
    → All P vs
    → All P (first_jobs n vs)
All-first_jobs P zero vs h = tt
All-first_jobs P (suc n) [] h = tt
All-first_jobs P (suc n) (v ∷ vs) (p, h) = (p, All-first_jobs P n vs h)

All-taken :
    (P : MachineIdentity → Type 0) (stop : Stop) (vs : List MachineIdentity)
    → All P vs
    → All P (taken stop vs)
All-taken P none vs h = h
All-taken P (some (n, e)) vs h = All-first_jobs P n vs h

SameAt-trans : (j : String) (a b c : Store) → SameAt j a b → SameAt j b c → SameAt j a c
SameAt-trans j a b c h k = record {
  record_same = k.record_same ∙ h.record_same;
  events_same = k.events_same ∙ h.events_same;
  runs_same = k.runs_same ∙ h.runs_same;
}

module _ {W : Type 0} (E : Env W) (clock : ℕ → Time) where
  -- At rest, and with the same under `j`.
  abbrev Spared : String → Store → Store → Type 0
  Spared j old st = AtRest st × SameAt j old st

  tally_sys :
      (id : String) (r : Result RotateResponse) (jobs : Jobs W) → (tally id r jobs).sys ≡ jobs.sys
  tally_sys id (ok reply) jobs = refl
  tally_sys id (err e) jobs = refl

  run_jobs_spares :
      (vs : List MachineIdentity) (n : ℕ) (s : Sys W) (j : String)
      → AtRest s.store
      → All (λ v. v.id ≢ j) vs
      → Spared j s.store (run_jobs E clock vs n s).sys.store
  unfolding run_jobs
  run_jobs_spares [] n s j rest h =
      (rest, record { record_same = refl; events_same = refl; runs_same = refl })
  run_jobs_spares (v ∷ vs) n s j rest (ne, h) =
      let req = sweep_request v (n + 1) in
      let t = rotate E req (clock (n + 1)) s in
      let (at_rest, same) =
        run_jobs_spares vs (n + 1) t.1 j (perform-AtRest E (rotates req) (clock (n + 1)) s rest)
          h in
      subst (λ z. Spared j s.store z.store)
        (sym (tally_sys v.id t.0 (run_jobs E clock vs (n + 1) t.1)))
        (
          at_rest,
          SameAt-trans j s.store t.1.store _
              (perform-others E (rotates req) (clock (n + 1)) s v.id j rest refl ne) same,
        )

  -- A sweep of a store at rest leaves it at rest, and leaves the record, the trail and the runs
  -- under an id as they were if no listed identity of that id is ready: active, overdue, and not
  -- tried within the retry window.
  pub sweep_leader_spares :
      (stop : Stop) (now : Time) (sw : Sweeper) (s : Sys W) (j : String)
      → AtRest s.store
      → Unready (retry_window sw.interval) now sw.last_attempt j (list false s.store)
      → AtRest (sweep_leader E clock stop now sw s).2.store
        × SameAt j s.store (sweep_leader E clock stop now sw s).2.store
  unfolding sweep_leader
  sweep_leader_spares stop now sw s j rest h =
      run_jobs_spares _ sw.sweep_seq s j rest
        (All-taken _ stop _ (choose_spares _ now (list false s.store) sw.last_attempt j h))

module _ {W : Type 0} (E : Env W) (clock : ℕ → Time) (lease : Lease W) (stop : Stop) (now : Time)
    (sw : Sweeper) (s : Sys W) where
  follows :
      (r : Result Bool) (w : W)
      → r ≢ ok true
      → ((led E clock lease stop now sw r (record s { world = w })).0.0 ≡ no_sweep)
        × ((led E clock lease stop now sw r (record s { world = w })).1 ≡ sw)
        × ((led E clock lease stop now sw r (record s { world = w })).2.store ≡ s.store)
  unfolding led
  follows (ok true) w ne = absurd (ne refl)
  follows (ok false) w ne = (refl, refl, refl)
  follows (err e) w ne = (refl, refl, refl)

  -- A sweep that does not acquire the lease, because another instance has it or acquiring fails,
  -- reports an empty result and leaves the store and the sweeper as they were.
  pub sweep_follower :
      (lease.try_acquire s.world).0 ≢ ok true
      → ((sweep E clock lease stop now sw s).0.0 ≡ no_sweep)
        × ((sweep E clock lease stop now sw s).1 ≡ sw)
        × ((sweep E clock lease stop now sw s).2.store ≡ s.store)
  unfolding sweep
  sweep_follower ne = follows (lease.try_acquire s.world).0 (lease.try_acquire s.world).1 ne
