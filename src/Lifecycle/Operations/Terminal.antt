-- ===== src/Lifecycle/Operations/Terminal.antt =====
-- Retired and absent ids over runs of operations.
use mathlib.Core.Path.{subst}
use mutandae.Prelude.{
  String, ◌≡◌, ◌≢◌, refl, ap, sym, ◌∙◌, inl, inr, some, List, [], ◌∷◌, lookup, lookup-insert,
  lookup-delete, Bool-cases, ◌==◌, string_eq, eq_iff, All,
}
use mutandae.Protocol.{MachineIdentity, RotateRequest, EventType, Time, retired, active}
use mutandae.Protocol.Errors.{Result, ok, err}
use mutandae.Lifecycle.Env.{Env}
use mutandae.Lifecycle.Operations.{
  Operation, registers, provisions, rotates, retires, deletes, uses, perform, perform_all,
}
use mutandae.Lifecycle.Operations.Rest.{perform-AtRest}
use mutandae.Lifecycle.Retire.{purge}
use mutandae.Lifecycle.Retire.Induction.{retire_keeps, delete_keeps}
use mutandae.Lifecycle.Rotate.{rotate, rotate_guards}
use mutandae.Lifecycle.Rotate.Guards.{rotate_guards-Guarded}
use mutandae.Lifecycle.Rotate.Induction.{Outlasts, rotate_keeps}
use mutandae.Lifecycle.Rotate.Section.{after_answer}
use mutandae.Lifecycle.Store.{Draft, append_event, put_identity}
use mutandae.Lifecycle.Store.AtRest.{AtRest}
use mutandae.Lifecycle.Store.Guarded.{Guarded-keeps}
use mutandae.Lifecycle.Store.Monad.{Store, Sys}
use mutandae.Lifecycle.Use.Induction.{use_keeps}
use mutandae.Lifecycle.Vaults.Keeps.{Absorbs}

some-inj : {A : Type 0} {a b : A} → some a ≡ some b → a ≡ b
some-inj e = cc

-- Under `k` there is nothing, or a retired identity.
abbrev pub Ended : String → Store → Type 0
Ended k st = (v : MachineIdentity) → lookup k st.identities ≡ some v → v.state ≡ retired

-- The operation adds no identity.
abbrev pub AddsNone : Operation → Type 0
AddsNone (registers req) = ⊥
AddsNone (provisions req) = ⊥
AddsNone op = Unit

Ended-append : (k : String) (d : Draft) (st : Store) → Ended k st → Ended k (append_event d st)
Ended-append k d st h = h

Ended-Absorbs : (k i : String) (kind : EventType) → Absorbs (Ended k) i kind
Ended-Absorbs k i kind d p q st h = Ended-append k d st h

-- An identity that is put under another id, or retired.
Ended-put :
    (k i : String) (v : MachineIdentity) (st : Store)
    → (i ≡ k → v.state ≡ retired)
    → Ended k st
    → Ended k (put_identity i v st)
Ended-put k i v st own h u found = elim (Bool-cases (i == k)) [
  | inl e ↦
      let p : lookup k (put_identity i v st).identities ≡ some v =
        lookup-insert i k v st.identities ∙ (rw e refl) in
      let q : v ≡ u = some-inj (sym p ∙ found) in
      subst (λ x. x.state ≡ retired) q (own ((eq_iff i k).0 e))
  | inr e ↦
      let p : lookup k (put_identity i v st).identities ≡ lookup k st.identities =
        lookup-insert i k v st.identities ∙ (rw e refl) in
      h u (sym p ∙ found)
]

Ended-purge : (k i : String) (st : Store) → Ended k st → Ended k (purge i st)
Ended-purge k i st h u found = elim (Bool-cases (i == k)) [
  | inl e ↦ cc (lookup-delete i k st.identities, e, found)
  | inr e ↦
      let p : lookup k (purge i st).identities ≡ lookup k st.identities =
        lookup-delete i k st.identities ∙ (rw e refl) in
      h u (sym p ∙ found)
]

-- No rotation gets past the guards for an ended identity.
rotated_other :
    (k : String) (st : Store) (i : String) (v : MachineIdentity)
    → Ended k st
    → lookup i st.identities ≡ some v
    → v.state ≡ active
    → i ≢ k
rotated_other k st i v h found act e =
    active≢retired (sym act ∙ h v (sym (ap (λ x. lookup x st.identities) e) ∙ found))
  where
    active≢retired : active ≢ retired
    active≢retired p = cc

-- An identity under `i` in the way of a rotation, where `i` is not ended.
module _ (k i : String) (ne : i ≢ k) where
  Ended-elsewhere : (v : MachineIdentity) (st : Store) → Ended k st → Ended k (put_identity i v st)
  Ended-elsewhere v st = Ended-put k i v st (λ e. absurd (ne e))

  Ended-Outlasts : Outlasts (Ended k) i
  Ended-Outlasts = record {
    events = Ended-Absorbs k i _;
    puts = λ v own act well st. Ended-put k v.id v st (λ e. absurd (ne (sym own ∙ e)));
  }

  Ended-after_answer :
      (req : RotateRequest) (now : Time) (v : MachineIdentity) (r : Result MachineIdentity)
      (st : Store)
      → req.id ≡ i
      → v.id ≡ i
      → Ended k st
      → Ended k (after_answer req now v r st)
  Ended-after_answer req now v (ok view) st here own h =
      Ended-put k req.id _ (put_identity v.id _ st) (λ e. absurd (ne (sym here ∙ e)))
        (Ended-put k v.id _ st (λ e. absurd (ne (sym own ∙ e))) h)
  Ended-after_answer req now v (err e) st here own h =
      Ended-put k v.id _ (put_identity v.id _ st) (λ e. absurd (ne (sym own ∙ e)))
        (Ended-put k v.id _ st (λ e. absurd (ne (sym own ∙ e))) h)

module _ {W : Type 0} (E : Env W) (k : String) where
  rotated :
      (req : RotateRequest) (now : Time) (s : Sys W)
      → AtRest s.store
      → Ended k s.store
      → Ended k (rotate E req now s).1.store
  unfolding rotate
  rotated req now s rest h = elim (Bool-cases (req.id == k)) [
    | inl e ↦
        Guarded-keeps s (Ended k) (rotate_guards req) _ (rotate_guards-Guarded req s) h
          λ v fit. absurd (rotated_other k s.store req.id v h fit.0 fit.1 ((eq_iff req.id k).0 e))
    | inr e ↦
        let ne : req.id ≢ k = λ p. cc (e, (eq_iff req.id k).1 p) in
        rotate_keeps E req now (Ended-Outlasts k req.id ne) s h λ v found act r.
          Ended-after_answer k req.id ne req now v r s.store refl (rest.at req.id v found).own_id h
  ]

  -- Retirement is final, whatever is asked for but a new identity.
  pub perform-Ended :
      (op : Operation) (now : Time) (s : Sys W)
      → AtRest s.store
      → AddsNone op
      → Ended k s.store
      → Ended k (perform E op now s).store
  perform-Ended (registers req) now s rest adds h = elim adds [ ]
  perform-Ended (provisions req) now s rest adds h = elim adds [ ]
  perform-Ended (rotates req) now s rest adds h = rotated req now s rest h
  perform-Ended (retires req) now s rest adds h =
      retire_keeps E req now (Ended-Absorbs k req.id _)
        (λ view st. Ended-put k req.id _ st (λ e. refl)) (λ view st h. h) s h
  perform-Ended (deletes req) now s rest adds h =
      delete_keeps E req now (Ended-Absorbs k req.id _) (λ v own st h. h) (Ended-purge k req.id) s
        (λ v found. (rest.at req.id v found).own_id) h
  perform-Ended (uses req) now s rest adds h =
      use_keeps E req now (Ended-Absorbs k req.id _) s (λ v found. (rest.at req.id v found).own_id)
        h

  -- In a store at rest, an id under which there is nothing or a retired identity stays so through
  -- any sequence of rotate, retire, delete and use requests: only registering or provisioning
  -- brings it back.
  pub perform_all-Ended :
      (ops : List (Operation × Time)) (s : Sys W)
      → AtRest s.store
      → All (λ op. AddsNone op.0) ops
      → Ended k s.store
      → Ended k (perform_all E ops s).store
  perform_all-Ended [] s rest adds h = h
  perform_all-Ended ((op, now) ∷ ops) s rest adds h =
      perform_all-Ended ops (perform E op now s) (perform-AtRest E op now s rest) adds.1
        (perform-Ended op now s rest adds.0 h)
