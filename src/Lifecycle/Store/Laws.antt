-- ===== src/Lifecycle/Store/Laws.antt =====
-- What the shared actions do to the store.
use mutandae.Prelude.{◌≡◌, refl, Bool, arith}
use mathlib.Core.Path.{subst, sym}
use mutandae.Protocol.{MachineIdentity}
use mutandae.Lifecycle.Env.{Env}
use mutandae.Lifecycle.Plans.{plan}
use mutandae.Lifecycle.Store.{Draft, add_event, append_event}
use mutandae.Lifecycle.Store.Keeps.{Keeps, Keeps-bind, Keeps-gets, Keeps-pure}
use mutandae.Lifecycle.Store.Monad.{Store, Sys, gets, pure, ◌>>=◌}
use mutandae.Lifecycle.Store.Snapshots.{persist}

module _ {W : Type 0} (E : Env W) where
  pub store-add_event : (d : Draft) (s : Sys W) → (add_event E d s).1.store ≡ append_event d s.store
  unfolding add_event
  store-add_event d s = refl

  -- Saving reads the store only.
  pub store-persist : (s : Sys W) → (persist E s).1.store ≡ s.store
  unfolding persist
  store-persist s = ground arith

  -- So does planning.
  pub store-plan :
      (v : MachineIdentity) (rotating : Bool) (s : Sys W) → (plan E v rotating s).1.store ≡ s.store
  unfolding plan
  store-plan v rotating s = ground arith

  pub Keeps-persist : {P : Store → Type 0} → Keeps P (persist E)
  Keeps-persist {P} = record { at = λ s h. subst P (sym (store-persist s)) h }

  pub Keeps-plan :
      {P : Store → Type 0} (v : MachineIdentity) (rotating : Bool) → Keeps P (plan E v rotating)
  Keeps-plan {P} v rotating = record { at = λ s h. subst P (sym (store-plan v rotating s)) h }

  -- The end of most operations: save, read the answer, return.
  pub Keeps-reply :
      {P : Store → Type 0} {A B : Type 0} (f : Sys W → A) (g : A → B)
      → Keeps P (persist E >>= λ _. gets f >>= λ a. pure (g a))
  Keeps-reply {A = A} {B = B} f g =
      Keeps-bind _ _ Keeps-persist
        λ _. Keeps-bind {A = A} (gets f) (λ a. pure (g a)) (Keeps-gets f) (λ a. Keeps-pure (g a))
