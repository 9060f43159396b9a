-- ===== src/Lifecycle/Store/Monad.antt =====
-- The store with the world around it, and the methods of the store as actions: what was written
-- before an error stays written.
use mutandae.Prelude.{ℕ, Bool, List, Dict}
use mutandae.Protocol.{MachineIdentity, LifecycleEvent, RotationRun}
use mutandae.Protocol.Errors.{Error, Result, ok, err}
use mutandae.Lifecycle.Env.{Call}

pub record Store : Type 0 where
  pub identities : Dict MachineIdentity
  pub events : Dict (List LifecycleEvent)
  pub runs : Dict (List RotationRun)
  pub next_event : ℕ
  pub next_run : ℕ

pub record Sys (W : Type 0) : Type 0 where
  pub store : Store
  pub open store use *
  pub world : W

abbrev pub Action : Type 0 → Type 0 → Type 0
Action W A = Sys W → Result A × Sys W

module _ {W A B : Type 0} where
  abbrev pub continue : Result A → (A → Action W B) → Action W B
  continue (ok a) f s = f a s
  continue (err e) f s = (err e, s)

  infixl 5 ◌>>=◌ ◌>>◌
  abbrev pub ◌>>=◌ : Action W A → (A → Action W B) → Action W B
  ◌>>=◌ m f s = let (r, s') = m s in continue r f s'

  abbrev pub ◌>>◌ : Action W A → Action W B → Action W B
  m >> n = m >>= λ _. n

module _ {W A : Type 0} where
  abbrev pub pure : A → Action W A
  pure a s = (ok a, s)

  abbrev pub raise : Error → Action W A
  raise e s = (err e, s)

  abbrev pub lift : Result A → Action W A
  lift r s = (r, s)

  abbrev pub gets : (Sys W → A) → Action W A
  gets f s = (ok (f s), s)

  -- A call of a collaborator, whose error is a value here.
  abbrev pub ask : Call W A → Action W (Result A)
  ask call s = let (r, w) = call s.world in (ok r, record s { world = w })

abbrev pub modify : {W : Type 0} → (Store → Store) → Action W (Unit {0})
modify f s = (ok tt, record s { store = f s.store })

abbrev pub modify_world : {W : Type 0} → (W → W) → Action W (Unit {0})
modify_world f s = (ok tt, record s { world = f s.world })

-- `if test { return …, err }`
abbrev pub refuse : {W : Type 0} → Bool → Error → Action W (Unit {0})
refuse Bool.true e s = (err e, s)
refuse Bool.false e s = (ok tt, s)
