-- ===== src/Lifecycle/Retire/Erased.antt =====
-- What `Delete` leaves behind, and its refusals.
use mutandae.Prelude.{
  String, ◌≡◌, ◌≢◌, refl, sym, ◌∙◌, ap, arith, true, false, string_eq, eq_refl, lookup,
  lookup-delete, some, none, ◌⊎◌, inl, inr,
}
use mathlib.Core.Path.{subst}
use mutandae.Protocol.{MachineIdentity, DeleteRequest, Time, retired, credential_revoked}
use mutandae.Protocol.Errors.{Result, ok, err}
use mutandae.Lifecycle.Env.{Env}
use mutandae.Lifecycle.Retire.{
  delete_identity, delete_guards, delete_rest, deletion_section, purge, revoke_copies, delete_reply,
}
use mutandae.Lifecycle.Retire.Guards.{delete_guards-Guarded, Deletable}
use mutandae.Lifecycle.Retire.Induction.{Keeps-revoke_copies}
use mutandae.Lifecycle.Store.{add_event}
use mutandae.Lifecycle.Store.Guarded.{Guarded, fails, passes}
use mutandae.Lifecycle.Store.Keeps.{Keeps-bind, Keeps-pure}
use mutandae.Lifecycle.Store.Laws.{Keeps-persist}
use mutandae.Lifecycle.Store.Monad.{Store, Sys, continue, pure}
use mutandae.Lifecycle.Vaults.Keeps.{Absorbs}
use mutandae.Lifecycle.Vaults.Returning.{Returning, Returning-bind, vaults_lem}

-- Nothing is stored under `id`.
pub record Erased (id : String) (st : Store) : Type 0 where
  pub no_record : lookup id st.identities ≡ none
  pub no_trail : lookup id st.events ≡ none
  pub no_runs : lookup id st.runs ≡ none

Erased-purge : (id : String) (st : Store) → Erased id (purge id st)
Erased-purge id st = record {
  no_record = ground (arith, lookup-delete id id st.identities, eq_refl id);
  no_trail = ground (arith, lookup-delete id id st.events, eq_refl id);
  no_runs = ground (arith, lookup-delete id id st.runs, eq_refl id);
}

-- Returning a value at last changes nothing.
pure_ends :
    {W A B : Type 0} (r : Result A) (g : A → B) (t : Sys W) → (continue r (λ a. pure (g a)) t).1 ≡ t
pure_ends (ok a) g t = refl
pure_ends (err e) g t = refl

some-inj : {A : Type 0} {a b : A} → some a ≡ some b → a ≡ b
some-inj e = cc

module _ {W : Type 0} (E : Env W) (req : DeleteRequest) (now : Time) (v : MachineIdentity) where
  Returning-revoke_copies : Returning (revoke_copies E v now)
  unfolding revoke_copies
  Returning-revoke_copies =
      Returning-bind _ _ (vaults_lem E v "" "" now).2 λ _. (vaults_lem E v "" "" now).3

  abbrev Recorded : Store → Type 0
  Recorded st = lookup req.id st.identities ≡ some v

  Recorded-Absorbs : Absorbs Recorded req.id credential_revoked
  Recorded-Absorbs d here kind st h = h

  -- The last critical section finds the record and erases it, whether saving succeeds or not.
  section_erases :
      v.id ≡ req.id
      → (s : Sys W) → Recorded s.store
      → Erased req.id (deletion_section E req now v s).1.store
  unfolding deletion_section add_event
  section_erases own s found = rw found (
      (Keeps-bind {P = Erased req.id} _ _ (Keeps-persist E) (λ _. Keeps-pure _)).at _
        (rw own (Erased-purge req.id _)))

  rest_erases :
      v.id ≡ req.id
      → (s : Sys W) → Recorded s.store
      → Erased req.id (delete_rest E req now v s).1.store
  unfolding delete_rest
  rest_erases own s found =
      let (a, h) = Returning-revoke_copies.at s in
      let kept : Recorded (revoke_copies E v now s).1.store =
        (Keeps-revoke_copies E v now (λ d p q. Recorded-Absorbs d (p ∙ own) q)).at s found in
      rw h (
        subst (λ t. Erased req.id t.store)
          (sym (
            pure_ends (deletion_section E req now v (revoke_copies E v now s).1).0 (delete_reply v)
              _))
          (section_erases own (revoke_copies E v now s).1 kept))

  -- The guards let a confirmed deletion of a retired identity pass.
  delete_guards_pass :
      (s : Sys W)
      → req.confirm ≡ true
      → lookup req.id s.identities ≡ some v
      → v.state ≡ retired
      → delete_guards req s ≡ (ok v, s)
  unfolding delete_guards
  delete_guards_pass s sure found gone = simp (sure, found, gone)

  -- Delete on a confirmed request for a retired identity stored under its own id leaves no
  -- record, no trail and no runs under the id, whatever the vaults answer and whether saving
  -- succeeds or not.
  pub delete_lem :
      (s : Sys W)
      → req.confirm ≡ true
      → lookup req.id s.identities ≡ some v
      → v.state ≡ retired
      → v.id ≡ req.id
      → Erased req.id (delete_identity E req now s).1.store
  unfolding delete_identity
  delete_lem s sure found gone own =
      rw (delete_guards_pass s sure found gone) (rest_erases own s found)

-- Delete without a confirmation, for an unknown id, or for an identity that is not retired
-- changes nothing, neither in the store nor outside.
pub delete_refused :
    {W : Type 0} (E : Env W) (req : DeleteRequest) (now : Time) (s : Sys W)
    → (req.confirm ≡ false)
      ⊎ ((lookup req.id s.identities ≡ none)
          ⊎ ((v : MachineIdentity) × (lookup req.id s.identities ≡ some v) × (v.state ≢ retired)))
    → (delete_identity E req now s).1 ≡ s
unfolding delete_identity
delete_refused E req now s why = refused (delete_guards-Guarded s req) why
  where
    refused :
        Guarded (Deletable s req) (delete_guards req) s
        → (req.confirm ≡ false)
          ⊎ ((lookup req.id s.identities ≡ none)
              ⊎ ((v : MachineIdentity) × (lookup req.id s.identities ≡ some v)
                  × (v.state ≢ retired)))
        → (delete_identity E req now s).1 ≡ s
    refused (fails e p) why = rw p refl
    refused (passes v p fit) (inl unsure) = cc (fit.confirmed, unsure)
    refused (passes v p fit) (inr (inl missing)) = cc (fit.found, missing)
    refused (passes v p fit) (inr (inr (u, here, ne))) = absurd (ne (same ∙ fit.gone))
      where
        same : u.state ≡ v.state
        same = ap (λ x. x.state) (some-inj (sym here ∙ fit.found))
