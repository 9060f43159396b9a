-- ===== src/Lifecycle/Rotate/Guards.antt =====
-- The guards of `Rotate`.
use mutandae.Prelude.{String, ◌≡◌, refl, false, not, Option, none, some, lookup, ◌==◌, string_eq}
use mutandae.Protocol.{
  MachineIdentity, RotateRequest, State, registered, active, renewing, retired, unknown, state_eq,
}
use mutandae.Protocol.Errors.{bare, not_found}
use mutandae.Protocol.Transitions.{can_transition}
use mutandae.Protocol.Validation.{validate_rotate_request}
use mutandae.Lifecycle.Rotate.{rotate_guards, require_known}
use mutandae.Lifecycle.Store.Guarded.{
  Guarded, fails, passes, Guarded-bind, Guarded-lift, Guarded-pure, Guarded-refuse,
}
use mutandae.Lifecycle.Store.Monad.{Sys}

active_of_renewable : (x : State) → not (can_transition x renewing) ≡ false → x ≡ active
unfolding can_transition
active_of_renewable registered h = cc
active_of_renewable active h = refl
active_of_renewable renewing h = cc
active_of_renewable retired h = cc
active_of_renewable (unknown t) h = cc

module _ {W : Type 0} where
  pub Guarded-known :
      (id : String) (s : Sys W)
      → Guarded (λ v. lookup id s.identities ≡ some v) (require_known id) s
  Guarded-known id s = go (lookup id s.identities) refl
    where
      go :
          (o : Option MachineIdentity)
          → lookup id s.identities ≡ o
          → Guarded (λ v. lookup id s.identities ≡ some v) (require_known id) s
      go none h = fails (bare not_found) (rw h)
      go (some v) h = passes v (rw h) h

  abbrev pub Rotatable : RotateRequest → Sys W → MachineIdentity → Type 0
  Rotatable req s v = (lookup req.id s.identities ≡ some v) × (v.state ≡ active)

  pub rotate_guards-Guarded :
      (req : RotateRequest) (s : Sys W) → Guarded (Rotatable req s) (rotate_guards req) s
  unfolding rotate_guards
  rotate_guards-Guarded req s =
      Guarded-bind s _ _ (Guarded-lift s (validate_rotate_request req)) λ _ _.
        Guarded-bind s _ _ (Guarded-known req.id s) λ v found.
          Guarded-bind s _ _ (Guarded-refuse s (v.state == retired) _) λ _ _.
            Guarded-bind s _ _ (Guarded-refuse s (v.state == renewing) _) λ _ _.
              Guarded-bind s _ _ (Guarded-refuse s (not (can_transition v.state renewing)) _)
                λ _ can. Guarded-pure s v (found, active_of_renewable v.state can)
