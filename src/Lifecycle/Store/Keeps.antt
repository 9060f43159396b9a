-- ===== src/Lifecycle/Store/Keeps.antt =====
-- Predicates on the store that an action keeps, whatever its collaborators answer, and whether it
-- returns or fails: one rule for each way to build an action.
use mutandae.Prelude.{Bool, true, false, if◌then◌else◌}
use mutandae.Protocol.Errors.{Error, Result, ok, err}
use mutandae.Lifecycle.Env.{Env, Call}
use mutandae.Lifecycle.Store.{Draft, add_event, append_event}
use mutandae.Lifecycle.Store.Monad.{
  Store, Sys, Action, ask, gets, lift, modify, pure, raise, refuse, continue, ◌>>=◌,
}

pub record Keeps {W A : Type 0} (P : Store → Type 0) (m : Action W A) : Type 0 where
  pub at : (s : Sys W) → P s.store → P (m s).1.store

-- The action leads from `P` to `Q` if it returns, and to `R` if it fails.
abbrev pub After :
    {A : Type 0} → (A → Store → Type 0) → (Store → Type 0) → Result A → Store → Type 0
After Q R (ok a) st = Q a st
After Q R (err e) st = R st

module _ {W A : Type 0} {P : Store → Type 0} where
  pub Keeps-pure : (a : A) → Keeps P (pure {W = W} a)
  Keeps-pure a = record { at = λ s h. h }

  pub Keeps-raise : (e : Error) → Keeps P (raise {W = W} {A = A} e)
  Keeps-raise e = record { at = λ s h. h }

  pub Keeps-lift : (r : Result A) → Keeps P (lift {W = W} r)
  Keeps-lift r = record { at = λ s h. h }

  pub Keeps-gets : (f : Sys W → A) → Keeps P (gets f)
  Keeps-gets f = record { at = λ s h. h }

  pub Keeps-ask : (call : Call W A) → Keeps P (ask call)
  Keeps-ask call = record { at = λ s h. h }

  pub Keeps-if :
      (b : Bool) (m n : Action W A) → Keeps P m → Keeps P n → Keeps P (if b then m else n)
  Keeps-if true m n km kn = km
  Keeps-if false m n km kn = kn

module _ {W : Type 0} {P : Store → Type 0} where
  pub Keeps-refuse : (b : Bool) (e : Error) → Keeps P (refuse {W = W} b e)
  Keeps-refuse true e = record { at = λ s h. h }
  Keeps-refuse false e = record { at = λ s h. h }

  pub Keeps-modify :
      (f : Store → Store) → ((st : Store) → P st → P (f st)) → Keeps P (modify {W = W} f)
  Keeps-modify f kf = record { at = λ s h. kf s.store h }

  pub Keeps-add_event :
      (E : Env W) (d : Draft)
      → ((st : Store) → P st → P (append_event d st))
      → Keeps P (add_event E d)
  unfolding add_event
  Keeps-add_event E d kd = record { at = λ s h. kd s.store h }

module _ {W A B : Type 0} {P : Store → Type 0} where
  Keeps-continue :
      (r : Result A) (f : A → Action W B) (s : Sys W)
      → P s.store
      → ((a : A) → Keeps P (f a))
      → P (continue r f s).1.store
  Keeps-continue (ok a) f s h kf = (kf a).at s h
  Keeps-continue (err e) f s h kf = h

  pub Keeps-bind :
      (m : Action W A) (f : A → Action W B)
      → Keeps P m
      → ((a : A) → Keeps P (f a))
      → Keeps P (m >>= f)
  Keeps-bind m f km kf = record { at = λ s h. Keeps-continue (m s).0 f (m s).1 (km.at s h) kf }
