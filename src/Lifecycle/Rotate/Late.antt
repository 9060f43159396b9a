-- ===== src/Lifecycle/Rotate/Late.antt =====
-- The last write of `Rotate`, in a critical section of its own.
use mathlib.Core.Path.{subst}
use mutandae.Prelude.{
  ℕ, ◌≡◌, ◌≢◌, ◌⊎◌, inl, inr, refl, ◌∙◌, sym, ap, Option, none, some, lookup, lookup-insert,
  eq_refl,
}
use mutandae.Protocol.{MachineIdentity, RotationRun, VaultReference, Time, RotateRequest, active}
use mutandae.Protocol.Errors.{ok-inj, Error, Result, ok, err}
use mutandae.Lifecycle.Env.{Env}
use mutandae.Lifecycle.Rotate.{record_references, rotation_section, begin_rotation, settle_rotation}
use mutandae.Lifecycle.Store.{add_event, put_identity}
use mutandae.Lifecycle.Rotate.Section.{answer, fresh_run}
use mutandae.Lifecycle.Store.Monad.{Store, Sys, continue, raise, ◌>>=◌}
use mutandae.Lifecycle.Store.Snapshots.{persist}

put_found :
    (v : MachineIdentity) (st : Store)
    → (u : MachineIdentity) × (lookup v.id (put_identity v.id v st).identities ≡ some u)
      × (u.state ≡ v.state)
put_found v st = (v, simp (lookup-insert, eq_refl), refl)

module _ {W : Type 0} (renewed : MachineIdentity) (now : Time) (s : Sys W) where
  pub record_references_lem :
      (native common : Option VaultReference)
      → ((native ≢ none) ⊎ (common ≢ none))
      → (u : MachineIdentity) × (lookup renewed.id
            (record_references renewed native common now s).1.identities
          ≡ some u)
        × (u.state ≡ renewed.state)
  unfolding record_references
  record_references_lem none none e = elim e [ inl p ↦ absurd (p refl) | inr p ↦ absurd (p refl) ]
  record_references_lem (some n) none e = put_found _ s.store
  record_references_lem none (some c) e = put_found _ s.store
  record_references_lem (some n) (some c) e = put_found _ s.store

raises :
    {W A B : Type 0} (r : Result A) (e : Error) (t : Sys W) (p : B)
    → (continue r (λ _. raise e) t).0 ≢ ok p
raises (ok a) e t p h = cc
raises (err x) e t p h = cc

module _ {W : Type 0} (E : Env W) (req : RotateRequest) (now : Time) (v : MachineIdentity)
    (s : Sys W) where
  -- A failed rotation returns no identity.
  failure_fails :
      (e : Error) (t : Sys W) (p : MachineIdentity × RotationRun)
      → ((persist E >>= λ _. raise {A = MachineIdentity × RotationRun} e) t).0 ≢ ok p
  failure_fails e t p h = raises (persist E t).0 e (persist E t).1 p h

  settled_active :
      (r : Result MachineIdentity) (run : RotationRun) (i : ℕ) (t : Sys W)
      (renewed : MachineIdentity) (run' : RotationRun)
      → (settle_rotation E req.id v run i now r t).0 ≡ ok (renewed, run')
      → (renewed.id ≡ req.id) × (renewed.state ≡ active)
  unfolding settle_rotation add_event
  settled_active (ok view) run i t renewed run' h =
      let p = ok-inj h in (sym (ap (λ x. x.0.id) p), sym (ap (λ x. x.0.state) p))
  settled_active (err e) run i t renewed run' h = absurd (failure_fails _ _ _ h)

  section_active :
      (renewed : MachineIdentity) (run : RotationRun)
      → (rotation_section E req now v s).0 ≡ ok (renewed, run)
      → (renewed.id ≡ req.id) × (renewed.state ≡ active)
  unfolding rotation_section begin_rotation add_event
  section_active renewed run h =
      settled_active (answer req now v E s).0 (fresh_run req now v s.store) _ _ renewed run h

-- After a rotation's critical section has returned an identity, and in whatever state other
-- requests have left the store since, the write of the vault references leaves that identity
-- active under the request's id, as after a success: also where it was retired or deleted in
-- between.
pub late_write_revives :
    {W : Type 0} (E : Env W) (req : RotateRequest) (now later : Time) (v renewed : MachineIdentity)
    (run : RotationRun) (s t : Sys W) (native : VaultReference) (common : Option VaultReference)
    → (rotation_section E req now v s).0 ≡ ok (renewed, run)
    → (u : MachineIdentity) × (lookup req.id
          (record_references renewed (some native) common later t).1.identities
        ≡ some u)
      × (u.state ≡ active)
late_write_revives E req now later v renewed run s t native common h =
    let (own, act) = section_active E req now v s renewed run h in
    let (u, found, same) =
      record_references_lem renewed later t (some native) common (inl λ p. cc) in
    (
      u,
      subst
          (λ k.
            lookup k (record_references renewed (some native) common later t).1.identities ≡ some u)
          own found,
      same ∙ act,
    )
