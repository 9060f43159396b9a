-- ===== src/Lifecycle/Operations/Others.antt =====
-- What an operation does to ids that it does not name.
use mutandae.Prelude.{
  ℕ, ◌+◌, String, ◌≡◌, ◌≢◌, refl, ◌∙◌, sym, List, Option, some, none, Dict, lookup, insert, delete,
  lookup-insert, lookup-delete, string_eq, eq_iff, arith,
}
use mutandae.Protocol.{MachineIdentity, RotationRun, RotateRequest, Time, EventType}
use mutandae.Protocol.Errors.{Result, ok, err}
use mutandae.Lifecycle.Env.{Env}
use mutandae.Lifecycle.Operations.{
  Operation, registers, provisions, rotates, retires, deletes, uses, perform,
}
use mutandae.Lifecycle.Register.{chosen_id}
use mutandae.Lifecycle.Register.Induction.{register_keeps}
use mutandae.Lifecycle.Retire.{purge}
use mutandae.Lifecycle.Retire.Induction.{retire_keeps, delete_keeps}
use mutandae.Lifecycle.Rotate.Induction.{Outlasts, rotate_keeps}
use mutandae.Lifecycle.Rotate.Section.{begun, after_answer}
use mutandae.Lifecycle.Store.{Draft, append_event, put_identity}
use mutandae.Lifecycle.Store.AtRest.{AtRest}
use mutandae.Lifecycle.Store.Monad.{Store, Sys}
use mutandae.Lifecycle.Use.Induction.{use_keeps}
use mutandae.Lifecycle.Vaults.Keeps.{Absorbs}

-- What the two stores hold under `j`.
pub record SameAt (j : String) (old st : Store) : Type 0 where
  pub record_same : lookup j st.identities ≡ lookup j old.identities
  pub events_same : lookup j st.events ≡ lookup j old.events
  pub runs_same : lookup j st.runs ≡ lookup j old.runs

-- The id that an operation names; a provisioned identity gets its id from the provider.
abbrev pub target : Operation → Option String
target (registers req) = some (chosen_id req)
target (provisions req) = none
target (rotates req) = some req.id
target (retires req) = some req.id
target (deletes req) = some req.id
target (uses req) = some req.id

some-inj : {A : Type 0} {a b : A} → some a ≡ some b → a ≡ b
some-inj e = cc

lookup-insert_ne :
    {V : Type 0} (k j : String) (v : V) (m : Dict V) → k ≢ j → lookup j (insert k v m) ≡ lookup j m
lookup-insert_ne k j v m ne = ground (arith, lookup-insert k j v m, eq_iff k j)

lookup-delete_ne :
    {V : Type 0} (k j : String) (m : Dict V) → k ≢ j → lookup j (delete k m) ≡ lookup j m
lookup-delete_ne k j m ne = ground (arith, lookup-delete k j m, eq_iff k j)

module _ (j : String) (old : Store) where
  SameAt-put :
      (k : String) (v : MachineIdentity) (st : Store)
      → k ≢ j
      → SameAt j old st
      → SameAt j old (put_identity k v st)
  SameAt-put k v st ne h = record {
    record_same = lookup-insert_ne k j v st.identities ne ∙ h.record_same;
    events_same = h.events_same;
    runs_same = h.runs_same;
  }

  SameAt-append :
      (d : Draft) (st : Store)
      → d.identity_id ≢ j
      → SameAt j old st
      → SameAt j old (append_event d st)
  SameAt-append d st ne h = record {
    record_same = h.record_same;
    events_same = lookup-insert_ne d.identity_id j _ st.events ne ∙ h.events_same;
    runs_same = h.runs_same;
  }

  SameAt-runs :
      (k : String) (rs : List RotationRun) (n : ℕ) (st : Store)
      → k ≢ j
      → SameAt j old st
      → SameAt j old (record st { runs = insert k rs st.runs; next_run = n })
  SameAt-runs k rs n st ne h = record {
    record_same = h.record_same;
    events_same = h.events_same;
    runs_same = lookup-insert_ne k j rs st.runs ne ∙ h.runs_same;
  }

  SameAt-purge : (k : String) (st : Store) → k ≢ j → SameAt j old st → SameAt j old (purge k st)
  SameAt-purge k st ne h = record {
    record_same = lookup-delete_ne k j st.identities ne ∙ h.record_same;
    events_same = lookup-delete_ne k j st.events ne ∙ h.events_same;
    runs_same = lookup-delete_ne k j st.runs ne ∙ h.runs_same;
  }

  module _ (i : String) (ne : i ≢ j) where
    SameAt-Absorbs : (kind : EventType) → Absorbs (SameAt j old) i kind
    SameAt-Absorbs kind d p q st h = SameAt-append d st (λ e. ne (sym p ∙ e)) h

    SameAt-Outlasts : Outlasts (SameAt j old) i
    SameAt-Outlasts = record {
      events = SameAt-Absorbs _;
      puts = λ v own act well st h. SameAt-put v.id v st (λ e. ne (sym own ∙ e)) h;
    }

  module _ (req : RotateRequest) (now : Time) (v : MachineIdentity) (here : req.id ≢ j)
      (own : v.id ≢ j) where
    SameAt-begun : (st : Store) → SameAt j old st → SameAt j old (begun req now v st)
    SameAt-begun st h = SameAt-append _ _ own (
        SameAt-append _ _ own
          (SameAt-put v.id _ _ own (SameAt-runs v.id _ (st.next_run + 1) st own h)))

    SameAt-after_answer :
        (r : Result MachineIdentity) (st : Store)
        → SameAt j old st
        → SameAt j old (after_answer req now v r st)
    SameAt-after_answer (ok view) st h =
        SameAt-append _ _ here
          (SameAt-runs req.id _ _ _ here (SameAt-put req.id _ _ here (SameAt-begun st h)))
    SameAt-after_answer (err e) st h =
        SameAt-append _ _ own
          (SameAt-runs v.id _ _ _ own (SameAt-put v.id _ _ own (SameAt-begun st h)))

module _ {W : Type 0} (E : Env W) (now : Time) (s : Sys W) (rest : AtRest s.store) (i j : String)
    (ne : i ≢ j) where
  abbrev Kept : Store → Type 0
  Kept = SameAt j s.store

  start : Kept s.store
  start = record { record_same = refl; events_same = refl; runs_same = refl }

  own_id : (k : String) (v : MachineIdentity) → lookup k s.identities ≡ some v → v.id ≡ k
  own_id k v found = (rest.at k v found).own_id

  performed : (op : Operation) → target op ≡ some i → Kept (perform E op now s).store
  performed (registers req) t =
      let there : chosen_id req ≢ j = λ e. ne (sym (some-inj t) ∙ e) in
      register_keeps E req now (λ period st. SameAt-put j s.store _ _ st there)
        (λ period st. SameAt-append j s.store _ st there) s start
  performed (provisions req) t = cc
  performed (rotates req) t =
      let there : req.id ≢ j = λ e. ne (sym (some-inj t) ∙ e) in
      rotate_keeps E req now (SameAt-Outlasts j s.store req.id there) s start λ v found act r.
        SameAt-after_answer j s.store req now v there (λ e. there (sym (own_id req.id v found) ∙ e))
          r s.store start
  performed (retires req) t =
      let there : req.id ≢ j = λ e. ne (sym (some-inj t) ∙ e) in
      retire_keeps E req now (SameAt-Absorbs j s.store req.id there _)
        (λ view st. SameAt-put j s.store _ _ st there)
        (λ view st. SameAt-append j s.store _ st there) s start
  performed (deletes req) t =
      let there : req.id ≢ j = λ e. ne (sym (some-inj t) ∙ e) in
      delete_keeps E req now (SameAt-Absorbs j s.store req.id there _)
        (λ v own st. SameAt-append j s.store _ st (λ e. there (sym own ∙ e)))
        (λ st. SameAt-purge j s.store req.id st there) s (own_id req.id) start
  performed (uses req) t =
      let there : req.id ≢ j = λ e. ne (sym (some-inj t) ∙ e) in
      use_keeps E req now (SameAt-Absorbs j s.store req.id there _) s (own_id req.id) start

-- On a store at rest, a request that names one id leaves the record, the trail and the runs under
-- any other id as they were; a provisioning request names none.
pub perform-others :
    {W : Type 0} (E : Env W) (op : Operation) (now : Time) (s : Sys W) (i j : String)
    → AtRest s.store
    → target op ≡ some i
    → i ≢ j
    → SameAt j s.store (perform E op now s).store
perform-others E op now s i j rest t ne = performed E now s rest i j ne op t
