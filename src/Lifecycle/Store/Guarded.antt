-- ===== src/Lifecycle/Store/Guarded.antt =====
-- Guards: actions that fail or return a value, and change nothing.
use mutandae.Prelude.{◌≡◌, refl, ap, ◌∙◌, Bool, true, false}
use mutandae.Protocol.Errors.{Error, Result, ok, err}
use mutandae.Lifecycle.Store.Monad.{Store, Sys, Action, gets, pure, lift, refuse, continue, ◌>>=◌}

-- Either `m` fails and leaves the state, or it returns a value of `Q` and leaves the state.
pub data Guarded {W A : Type 0} (Q : A → Type 0) (m : Action W A) (s : Sys W) : Type 0 where
  fails : (e : Error) → m s ≡ (err e, s) → Guarded Q m s
  passes : (a : A) → m s ≡ (ok a, s) → Q a → Guarded Q m s

module _ {W A : Type 0} (s : Sys W) where
  pub Guarded-pure : {Q : A → Type 0} (a : A) → Q a → Guarded Q (pure a) s
  Guarded-pure a q = passes a refl q

  pub Guarded-lift : (r : Result A) → Guarded (λ a. r ≡ ok a) (lift r) s
  Guarded-lift (ok a) = passes a refl refl
  Guarded-lift (err e) = fails e refl

  pub Guarded-gets : (f : Sys W → A) → Guarded (λ a. f s ≡ a) (gets f) s
  Guarded-gets f = passes (f s) refl refl

module _ {W : Type 0} (s : Sys W) where
  pub Guarded-refuse : (b : Bool) (e : Error) → Guarded (λ _. b ≡ false) (refuse b e) s
  Guarded-refuse true e = fails e refl
  Guarded-refuse false e = passes tt refl refl

module _ {W A B : Type 0} (s : Sys W) where
  bind-fails :
      (m : Action W A) (f : A → Action W B) (e : Error)
      → m s ≡ (err e, s)
      → (m >>= f) s ≡ (err e, s)
  bind-fails m f e h = ap (λ p. continue p.0 f p.1) h

  bind-passes :
      (m : Action W A) (f : A → Action W B) (a : A) → m s ≡ (ok a, s) → (m >>= f) s ≡ f a s
  bind-passes m f a h = ap (λ p. continue p.0 f p.1) h

module _ {W A B : Type 0} {Q : A → Type 0} (s : Sys W) where
  pub Guarded-bind :
      {R : B → Type 0} (m : Action W A) (f : A → Action W B)
      → Guarded Q m s
      → ((a : A) → Q a → Guarded R (f a) s)
      → Guarded R (m >>= f) s
  Guarded-bind m f (fails e h) k = fails e (bind-fails s m f e h)
  Guarded-bind {R} m f (passes a h q) k = onward (k a q)
    where
      onward : Guarded R (f a) s → Guarded R (m >>= f) s
      onward (fails e h') = fails e (bind-passes s m f a h ∙ h')
      onward (passes b h' r) = passes b (bind-passes s m f a h ∙ h') r

  -- What holds behind a guarded action.
  pub Guarded-keeps :
      (P : Store → Type 0) (m : Action W A) (f : A → Action W B)
      → Guarded Q m s
      → P s.store
      → ((a : A) → Q a → P (f a s).1.store)
      → P ((m >>= f) s).1.store
  Guarded-keeps P m f (fails e h) p k = rw (bind-fails s m f e h) p
  Guarded-keeps P m f (passes a h q) p k = rw (bind-passes s m f a h) (k a q)
