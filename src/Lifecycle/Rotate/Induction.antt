-- ===== src/Lifecycle/Rotate/Induction.antt =====
-- To show that a predicate on the store holds behind `Rotate`: it holds of the store with the outcome
-- of the provider's answer, and outlasts the deliveries.
use mathlib.Core.Path.{subst}
use mutandae.Prelude.{
  String, ◌≡◌, refl, sym, ◌∙◌, arith, Bool, true, false, some, if◌then◌else◌, length, lookup,
}
use mutandae.Protocol.{
  MachineIdentity, RotationRun, RotateRequest, Time, active, healthy, credential_delivered,
}
use mutandae.Protocol.Errors.{Error, Result, ok, err}
use mutandae.Lifecycle.Env.{Env}
use mutandae.Lifecycle.Errors.{provider_operation_error}
use mutandae.Lifecycle.Rotate.{
  rotate, rotate_apply, rotate_rest, rotate_reply, rotate_dry_run, settle_rotation, begin_rotation,
  rotate_guards,
}
use mutandae.Lifecycle.Plans.{plan}
use mutandae.Lifecycle.Rotate.Delivery.{Keeps-deliver_renewed}
use mutandae.Lifecycle.Rotate.Guards.{Rotatable, rotate_guards-Guarded}
use mutandae.Lifecycle.Rotate.Section.{fresh_run, begun, after_answer, renewal, answer}
use mutandae.Lifecycle.Store.{add_event, events_of, runs_of, put_identity}
use mutandae.Lifecycle.Store.Guarded.{Guarded-keeps}
use mutandae.Lifecycle.Store.Keeps.{Keeps, Keeps-bind, Keeps-pure}
use mutandae.Lifecycle.Store.Laws.{Keeps-reply, Keeps-plan, store-persist}
use mutandae.Lifecycle.Store.Monad.{Store, Sys, raise, ◌>>=◌}
use mutandae.Lifecycle.Store.Snapshots.{persist}
use mutandae.Lifecycle.Vaults.Keeps.{Absorbs}

-- `P` outlasts what follows the renewal of `id`.
pub record Outlasts (P : Store → Type 0) (id : String) : Type 0 where
  pub events : Absorbs P id credential_delivered
  pub puts :
      (v : MachineIdentity)
      → v.id ≡ id
      → v.state ≡ active
      → v.health ≡ healthy
      → (st : Store) → P st
      → P (put_identity v.id v st)

module _ {W : Type 0} (E : Env W) (now : Time) where
  -- A failed rotation ends behind the attempt to save it.
  failure_ends :
      (e : Error) (t : Sys W)
      → (((persist E >>= λ _. raise (provider_operation_error e)) >>= rotate_rest E now) t).1.store
        ≡ t.store
  failure_ends e t = ground (arith, store-persist E t)

module _ {W : Type 0} (E : Env W) (req : RotateRequest) (now : Time) {P : Store → Type 0} where
  -- What follows the critical section of a successful rotation.
  Keeps-rest :
      (v : MachineIdentity) (run : RotationRun)
      → v.id ≡ req.id
      → v.state ≡ active
      → v.health ≡ healthy
      → Outlasts P req.id
      → Keeps P (rotate_rest E now (v, run))
  unfolding rotate_rest
  Keeps-rest v run own act well outlasts =
      Keeps-bind _ _
        (Keeps-deliver_renewed E v (λ d p q. outlasts.events d (p ∙ own) q)
          (λ u p q r. outlasts.puts u (p ∙ own) (q ∙ act) (r ∙ well)) now)
        λ v'. Keeps-reply E (λ s. events_of v'.id s.store) (rotate_reply run v')

  module _ (v : MachineIdentity) (s : Sys W) where
    -- The provider's answer is `r`, and the world is `w` then.
    settled :
        (r : Result MachineIdentity) (w : W)
        → ((view : MachineIdentity) → r ≡ ok view → Outlasts P req.id)
        → P (after_answer req now v r s.store)
        → P
            ((settle_rotation E req.id v
                  (fresh_run req now v s.store)
                  (length (runs_of v.id s.store))
                  now
                  r
                >>= rotate_rest E now)
              (record { store = begun req now v s.store; world = w })).1.store
    unfolding settle_rotation add_event
    settled (ok view) w outlasts kept =
        (Keeps-rest (renewal req now v view) _ refl refl refl (outlasts view refl)).at _ kept
    settled (err e) w outlasts kept = subst P (sym (failure_ends E now e _)) kept

    -- Behind the guards, with the answer that the adapter gives.
    pub apply_keeps :
        ((view : MachineIdentity) → (answer req now v E s).0 ≡ ok view → Outlasts P req.id)
        → P (after_answer req now v (answer req now v E s).0 s.store)
        → P (rotate_apply E req now v s).1.store
    unfolding rotate_apply begin_rotation add_event
    apply_keeps outlasts kept =
        settled (answer req now v E s).0 (answer req now v E s).1 outlasts kept

  -- The principle: `P` holds behind any request.
  pub rotate_keeps :
      Outlasts P req.id
      → (s : Sys W) → P s.store
      → ((v : MachineIdentity)
          → lookup req.id s.identities ≡ some v
          → v.state ≡ active
          → (r : Result MachineIdentity) → P (after_answer req now v r s.store))
      → P (rotate E req now s).1.store
  unfolding rotate rotate_dry_run
  rotate_keeps outlasts s p kept =
      Guarded-keeps s P (rotate_guards req) _ (rotate_guards-Guarded req s) p
        λ v found. accepted v found req.dry_run
    where
      accepted :
          (v : MachineIdentity)
          → Rotatable req s v
          → (dry : Bool)
          → P ((if dry then rotate_dry_run E v else rotate_apply E req now v) s).1.store
      accepted v found true =
          (Keeps-bind {P = P} (plan E v true) _ (Keeps-plan E v true) (λ planned. Keeps-pure _)).at
            s p
      accepted v found false = apply_keeps v s (λ _ _. outlasts) (kept v found.0 found.1 _)
