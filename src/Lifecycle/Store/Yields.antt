-- ===== src/Lifecycle/Store/Yields.antt =====
-- Actions that keep a predicate on the store and return values of `Q` only.
use mutandae.Protocol.Errors.{Error, Result, ok, err}
use mutandae.Lifecycle.Store.Keeps.{Keeps}
use mutandae.Lifecycle.Store.Monad.{Store, Sys, Action, pure, raise, continue, ◌>>=◌}

abbrev pub Returns : {A : Type 0} → (A → Type 0) → Result A → Type 0
Returns Q (ok a) = Q a
Returns Q (err e) = Unit

pub record Yields {W A : Type 0} (P : Store → Type 0) (Q : A → Type 0) (m : Action W A)
    : Type 0 where
  pub at : (s : Sys W) → P s.store → P (m s).1.store × Returns Q (m s).0

module _ {W A : Type 0} {P : Store → Type 0} {Q : A → Type 0} where
  pub Yields-pure : (a : A) → Q a → Yields P Q (pure {W = W} a)
  Yields-pure a q = record { at = λ s h. (h, q) }

  pub Yields-raise : (e : Error) → Yields P Q (raise {W = W} e)
  Yields-raise e = record { at = λ s h. (h, tt) }

  -- What a value satisfies for nothing.
  pub Yields-keeps : (m : Action W A) → Keeps P m → ((a : A) → Q a) → Yields P Q m
  Yields-keeps m km q = record { at = λ s h. (km.at s h, returned (m s).0) }
    where
      returned : (r : Result A) → Returns Q r
      returned (ok a) = q a
      returned (err e) = tt

  pub Yields→Keeps : (m : Action W A) → Yields P Q m → Keeps P m
  Yields→Keeps m y = record { at = λ s h. (y.at s h).0 }

module _ {W A B : Type 0} {P : Store → Type 0} {Q : A → Type 0} {R : B → Type 0} where
  Yields-continue :
      (r : Result A) (f : A → Action W B) (s : Sys W)
      → P s.store
      → Returns Q r
      → ((a : A) → Q a → Yields P R (f a))
      → P (continue r f s).1.store × Returns R (continue r f s).0
  Yields-continue (ok a) f s h q k = (k a q).at s h
  Yields-continue (err e) f s h q k = (h, tt)

  pub Yields-bind :
      (m : Action W A) (f : A → Action W B)
      → Yields P Q m
      → ((a : A) → Q a → Yields P R (f a))
      → Yields P R (m >>= f)
  Yields-bind m f ym k = record {
    at = λ s h. Yields-continue (m s).0 f (m s).1 (ym.at s h).0 (ym.at s h).1 k;
  }
