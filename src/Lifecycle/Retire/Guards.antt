-- ===== src/Lifecycle/Retire/Guards.antt =====
-- The guards of `Retire` and `Delete`.
use mutandae.Prelude.{◌≡◌, refl, false, not, ◌&&◌, lookup, some, ◌==◌, ◌⊎◌, inl, inr}
use mutandae.Protocol.{
  MachineIdentity, RetireRequest, DeleteRequest, State, registered, active, renewing, retired,
  unknown, state_eq,
}
use mutandae.Protocol.Transitions.{can_transition}
use mutandae.Protocol.Validation.{validate_retire_request}
use mutandae.Lifecycle.Retire.{retire_guards, delete_guards}
use mutandae.Lifecycle.Rotate.Guards.{Guarded-known}
use mutandae.Lifecycle.Store.Guarded.{
  Guarded, Guarded-bind, Guarded-lift, Guarded-pure, Guarded-refuse,
}
use mutandae.Lifecycle.Store.Monad.{Sys}

-- Of the known states, an active or a renewing identity may be retired.
retirable_state :
    (x : State) → not (can_transition x retired) ≡ false → (x ≡ active) ⊎ (x ≡ renewing)
unfolding can_transition
retirable_state registered h = cc
retirable_state active h = inl refl
retirable_state renewing h = inr refl
retirable_state retired h = cc
retirable_state (unknown t) h = cc

is_retired_state : (x : State) → not (x == retired) ≡ false → x ≡ retired
is_retired_state retired h = refl
is_retired_state registered h = cc
is_retired_state _ h = cc

module _ {W : Type 0} (s : Sys W) where
  -- Without a dry run the request is confirmed.
  pub record Retirable (req : RetireRequest) (v : MachineIdentity) : Type 0 where
    pub found : lookup req.id s.identities ≡ some v
    pub live : (v.state ≡ active) ⊎ (v.state ≡ renewing)
    pub confirmed : (not req.dry_run && not req.confirm) ≡ false

  pub record Deletable (req : DeleteRequest) (v : MachineIdentity) : Type 0 where
    pub found : lookup req.id s.identities ≡ some v
    pub gone : v.state ≡ retired
    pub confirmed : not req.confirm ≡ false

  pub retire_guards-Guarded : (req : RetireRequest) → Guarded (Retirable req) (retire_guards req) s
  unfolding retire_guards
  retire_guards-Guarded req =
      Guarded-bind s _ _ (Guarded-lift s (validate_retire_request req)) λ _ _.
        Guarded-bind s _ _ (Guarded-refuse s (not req.dry_run && not req.confirm) _) λ _ sure.
          Guarded-bind s _ _ (Guarded-known req.id s) λ v found.
            Guarded-bind s _ _ (Guarded-refuse s (v.state == retired) _) λ _ _.
              Guarded-bind s _ _ (Guarded-refuse s (not (can_transition v.state retired)) _)
                λ _ can.
                  Guarded-pure s v
                    (record { found = found; live = retirable_state v.state can; confirmed = sure })

  pub delete_guards-Guarded : (req : DeleteRequest) → Guarded (Deletable req) (delete_guards req) s
  unfolding delete_guards
  delete_guards-Guarded req = Guarded-bind s _ _ (Guarded-refuse s (not req.confirm) _) λ _ sure.
      Guarded-bind s _ _ (Guarded-known req.id s) λ v found.
        Guarded-bind s _ _ (Guarded-refuse s (not (v.state == retired)) _) λ _ is.
          Guarded-pure s v
            (record { found = found; gone = is_retired_state v.state is; confirmed = sure })
