-- ===== src/Lifecycle/Rotate/Answered.antt =====
-- What `Rotate` leaves behind, from the request to the answer.
use mutandae.Prelude.{
  map, ◌≡◌, refl, sym, ◌∙◌, arith, ap, Bool, if◌then◌else◌, ◌+◌, true, false, string_eq, eq_iff,
  lookup, some, List, [], ◌∷◌, ◌++◌, All, All-append, lookup-insert, eq_refl,
}
use mathlib.Core.Path.{subst}
use mathlib.Core.List.{append_assoc}
use mutandae.Protocol.{
  Health, healthy, attention, RotationStatus, succeeded, EventType, rotation_requested,
  rotation_started, rotation_completed, rotation_failed, MachineIdentity, LifecycleEvent,
  RotateRequest, Time, active, credential_delivered,
}
use mutandae.Protocol.Errors.{Result, ok, err}
use mutandae.Protocol.Transitions.{can_transition}
use mutandae.Protocol.Validation.{validate_rotate_request}
use mutandae.Lifecycle.Env.{Env}
use mutandae.Lifecycle.Rotate.{rotate, rotate_guards, rotate_apply, rotate_dry_run}
use mutandae.Lifecycle.Rotate.Guards.{Rotatable, rotate_guards-Guarded}
use mutandae.Lifecycle.Store.Guarded.{Guarded-keeps}
use mutandae.Lifecycle.Rotate.Induction.{Outlasts, apply_keeps}
use mutandae.Lifecycle.Rotate.Section.{answer, after_answer}
use mutandae.Lifecycle.Rotate.Trail.{
  final_identity, final_run, rotation_trail, identity-after, runs-after, events-after,
}
use mutandae.Lifecycle.Store.{event_of, events_of, runs_of, put_identity}
use mutandae.Lifecycle.Store.Laws.{store-plan}
use mutandae.Lifecycle.Store.Monad.{Store, Sys}
use mutandae.Lifecycle.Store.Tables.{events_of-append_event}
use mutandae.Lifecycle.Vaults.Keeps.{Absorbs}

-- What the provider's answer calls for.
abbrev pub health_after : Result MachineIdentity → Health
health_after (ok view) = healthy
health_after (err e) = attention

abbrev pub status_after : Result MachineIdentity → RotationStatus
status_after (ok view) = succeeded
status_after (err e) = RotationStatus.failed

abbrev pub kind_after : Result MachineIdentity → EventType
kind_after (ok view) = rotation_completed
kind_after (err e) = rotation_failed

-- Under the id there is an active identity; one run was added, and to the trail the events of the
-- rotation and then only those of deliveries.
pub record Rotated (req : RotateRequest) (now : Time) (v : MachineIdentity)
    (r : Result MachineIdentity) (old st : Store) : Type 0 where
  pub identity : MachineIdentity
  pub stored : lookup req.id st.identities ≡ some identity
  pub own_id : identity.id ≡ req.id
  pub state_active : identity.state ≡ active
  pub health_final : identity.health ≡ health_after r
  pub runs_final : runs_of req.id st ≡ runs_of req.id old ++ final_run req now v old r ∷ []
  pub run_ended : (final_run req now v old r).status ≡ status_after r
  pub deliveries : List LifecycleEvent
  pub trail :
      events_of req.id st ≡ events_of req.id old ++ (rotation_trail req now v old r ++ deliveries)
  pub kinds :
      map (λ e. e.event_type) (rotation_trail req now v old r)
      ≡ rotation_requested ∷ rotation_started ∷ kind_after r ∷ []
  pub delivered : All (λ e. e.event_type ≡ credential_delivered) deliveries

module _ (req : RotateRequest) (now : Time) (v : MachineIdentity) (r : Result MachineIdentity)
    (old : Store) where
  abbrev After : Store → Type 0
  After = Rotated req now v r old

  final_health : (r : Result MachineIdentity) → (final_identity req now v r).health ≡ health_after r
  final_health (ok view) = refl
  final_health (err e) = refl

  Rotated-start : v.id ≡ req.id → After (after_answer req now v r old)
  Rotated-start own = record {
    identity = final_identity req now v r;
    stored = identity-after req now v own old r;
    own_id = final_own r;
    state_active = final_active r;
    health_final = final_health r;
    runs_final = runs-after req now v own old r;
    run_ended = final_status r;
    deliveries = [];
    trail = events-after req now v own old r;
    kinds = final_kinds r;
    delivered = tt;
  }
    where
      final_status :
          (r : Result MachineIdentity) → (final_run req now v old r).status ≡ status_after r
      final_status (ok view) = refl
      final_status (err e) = refl

      final_kinds :
          (r : Result MachineIdentity)
          → map (λ e. e.event_type) (rotation_trail req now v old r)
            ≡ rotation_requested ∷ rotation_started ∷ kind_after r ∷ []
      final_kinds (ok view) = refl
      final_kinds (err e) = refl

      final_own : (r : Result MachineIdentity) → (final_identity req now v r).id ≡ req.id
      final_own (ok view) = refl
      final_own (err e) = own

      final_active : (r : Result MachineIdentity) → (final_identity req now v r).state ≡ active
      final_active (ok view) = refl
      final_active (err e) = refl

  Rotated-Absorbs : Absorbs After req.id credential_delivered
  Rotated-Absorbs d here kind st h = record {
    identity = h.identity;
    stored = h.stored;
    own_id = h.own_id;
    state_active = h.state_active;
    health_final = h.health_final;
    runs_final = h.runs_final;
    run_ended = h.run_ended;
    deliveries = h.deliveries ++ event_of (st.next_event + 1) d ∷ [];
    trail =
        events_of-append_event req.id st d
        ∙ (rw ((eq_iff d.identity_id req.id).1 here) (
            ap (λ es. es ++ event_of (st.next_event + 1) d ∷ []) h.trail
            ∙ append_assoc (events_of req.id old) (rotation_trail req now v old r ++ h.deliveries) _
            ∙ ap (λ es. events_of req.id old ++ es)
                (append_assoc (rotation_trail req now v old r) h.deliveries _)));
    kinds = h.kinds;
    delivered = All-append _ h.deliveries _ h.delivered (kind, tt);
  }

  Rotated-put :
      (u : MachineIdentity)
      → u.id ≡ req.id
      → u.state ≡ active
      → u.health ≡ (final_identity req now v r).health
      → (st : Store) → After st
      → After (put_identity u.id u st)
  Rotated-put u own act well st h = record {
    identity = u;
    stored = simp (lookup-insert, own, eq_refl);
    own_id = own;
    state_active = act;
    health_final = well ∙ final_health r;
    runs_final = h.runs_final;
    run_ended = h.run_ended;
    deliveries = h.deliveries;
    trail = h.trail;
    kinds = h.kinds;
    delivered = h.delivered;
  }

-- The deliveries behind a success keep what it left.
Rotated-Outlasts :
    (req : RotateRequest) (now : Time) (v view : MachineIdentity) (old : Store)
    → Outlasts (Rotated req now v (ok view) old) req.id
Rotated-Outlasts req now v view old = record {
  events = Rotated-Absorbs req now v (ok view) old;
  puts = Rotated-put req now v (ok view) old;
}

module _ {W : Type 0} (E : Env W) (req : RotateRequest) (now : Time) (s : Sys W)
    (v : MachineIdentity) where
  pub apply_lem :
      v.id ≡ req.id
      → Rotated req now v (answer req now v E s).0 s.store (rotate_apply E req now v s).1.store
  apply_lem own =
      apply_keeps E req now {P = Rotated req now v (answer req now v E s).0 s.store} v s
        (λ view e.
          subst (λ r. Outlasts (Rotated req now v r s.store) req.id) (sym e)
            (Rotated-Outlasts req now v view s.store))
        (Rotated-start req now v (answer req now v E s).0 s.store own)

  -- An active identity passes the guards.
  pub guards_pass :
      validate_rotate_request req ≡ ok tt → Rotatable req s v → rotate_guards req s ≡ (ok v, s)
  unfolding rotate_guards can_transition
  guards_pass valid (found, act) = simp (valid, found, act)

  -- Rotate on a valid request that is no dry run, for a stored active identity under its own id:
  -- whatever the provider, the vaults and the database answer, the id then holds an active
  -- identity, healthy if the provider renewed it and in need of attention if it failed; its runs
  -- are the old ones and one more of that rotation, which has succeeded or failed as the provider
  -- answered; and its trail is the old one followed by the requested, the started and the
  -- completed or failed event of that run and then by delivery events only.
  pub rotate_lem :
      validate_rotate_request req ≡ ok tt
      → req.dry_run ≡ false
      → Rotatable req s v
      → v.id ≡ req.id
      → Rotated req now v (answer req now v E s).0 s.store (rotate E req now s).1.store
  unfolding rotate
  rotate_lem valid wet fit own = rw (guards_pass valid fit) (dispatched req.dry_run wet)
    where
      dispatched :
          (dry : Bool)
          → dry ≡ false
          → Rotated req now v
              (answer req now v E s).0
              s.store
              ((if dry then rotate_dry_run E v else rotate_apply E req now v) s).1.store
      dispatched true wet = cc
      dispatched false wet = apply_lem own

module _ {W : Type 0} (E : Env W) (req : RotateRequest) (now : Time) (s : Sys W) where
  -- Rotate with the dry-run flag leaves the store as it was, whether it plans, is refused or
  -- fails.
  pub rotate_dry_run_lem : req.dry_run ≡ true → (rotate E req now s).1.store ≡ s.store
  unfolding rotate rotate_dry_run
  rotate_dry_run_lem dry =
      Guarded-keeps s (λ st. st ≡ s.store) (rotate_guards req) _ (rotate_guards-Guarded req s) refl
        λ v fit. dispatched v req.dry_run dry
    where
      dispatched :
          (v : MachineIdentity) (b : Bool)
          → b ≡ true
          → ((if b then rotate_dry_run E v else rotate_apply E req now v) s).1.store ≡ s.store
      dispatched v true dry = ground (arith, store-plan E v true s)
      dispatched v false dry = cc
