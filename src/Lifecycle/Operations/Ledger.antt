-- ===== src/Lifecycle/Operations/Ledger.antt =====
-- The audit trails over runs of operations.
use mathlib.Core.Path.{subst}
use mutandae.Prelude.{
  String, ◌≡◌, ◌≢◌, refl, ◌∙◌, sym, List, lookup-delete, ◌==◌, string_eq, eq_iff, arith, [], ◌∷◌,
  Bool-cases, inl, inr, if◌then◌else◌,
}
use mutandae.Protocol.{
  MachineIdentity, ProvisionRequest, DeleteRequest, RotateRequest, Time, EventType,
}
use mutandae.Protocol.Errors.{Result, ok, err}
use mutandae.Lifecycle.Env.{Env}
use mutandae.Lifecycle.Operations.{
  Operation, registers, provisions, rotates, retires, deletes, uses, perform, perform_all,
}
use mutandae.Lifecycle.Operations.Rest.{perform-AtRest}
use mutandae.Lifecycle.Provision.Induction.{Admits, Keeps-provision}
use mutandae.Lifecycle.Register.Induction.{register_keeps}
use mutandae.Lifecycle.Retire.{purge}
use mutandae.Lifecycle.Retire.Induction.{retire_keeps, delete_keeps}
use mutandae.Lifecycle.Rotate.Induction.{Outlasts, rotate_keeps}
use mutandae.Lifecycle.Rotate.Section.{begun, after_answer}
use mutandae.Lifecycle.Store.{Draft, append_event, put_identity, events_of}
use mutandae.Lifecycle.Store.AtRest.{AtRest}
use mutandae.Lifecycle.Store.Monad.{Store, Sys}
use mutandae.Lifecycle.Store.Numbers.{
  Grown, Grown-append, Grown-start, Ledger, Numbered, Numbered-Grown,
}
use mutandae.Lifecycle.Use.Induction.{use_keeps}
use mutandae.Lifecycle.Vaults.Keeps.{Absorbs}

-- The operation is no deletion of `k`.
abbrev pub Spares : Operation → String → Type 0
Spares (deletes req) k = req.id ≢ k
Spares op k = Unit

module _ (k : String) (old : Store) where
  Grown-put :
      (i : String) (v : MachineIdentity) (st : Store)
      → Grown k old st
      → Grown k old (put_identity i v st)
  Grown-put i v st h = record { extra = h.extra; trail = h.trail; numbered = h.numbered }

  Grown-Absorbs : (i : String) (kind : EventType) → Absorbs (Grown k old) i kind
  Grown-Absorbs i kind d p q st h = Grown-append k old d st h

  Grown-Outlasts : (i : String) → Outlasts (Grown k old) i
  Grown-Outlasts i = record {
    events = Grown-Absorbs i _;
    puts = λ v own act well st h. Grown-put v.id v st h;
  }

  Grown-Admits :
      (req : ProvisionRequest) (tenant : String) (v : MachineIdentity) (now : Time)
      → Admits (Grown k old) req tenant v now
  Grown-Admits req tenant v now = record {
    puts = λ u own same well st h. Grown-put u.id u st h;
    discovery = λ st h. Grown-append k old _ st h;
    registration = λ st h. Grown-append k old _ st h;
    deliveries = Grown-Absorbs v.id _;
  }

  Grown-purge : (i : String) (st : Store) → i ≢ k → Grown k old st → Grown k old (purge i st)
  Grown-purge i st ne h = record {
    extra = h.extra;
    trail = ground (arith, lookup-delete i k st.events, eq_iff i k, h.trail);
    numbered = h.numbered;
  }

  module _ (req : RotateRequest) (now : Time) (v : MachineIdentity) where
    Grown-begun : (st : Store) → Grown k old st → Grown k old (begun req now v st)
    Grown-begun st h = Grown-append k old _ _ (
        Grown-append k old _ _ (record { extra = h.extra; trail = h.trail; numbered = h.numbered }))

    Grown-after_answer :
        (r : Result MachineIdentity) (st : Store)
        → Grown k old st
        → Grown k old (after_answer req now v r st)
    Grown-after_answer (ok view) st h =
        let g = Grown-begun st h in
        Grown-append k old _ _ (record { extra = g.extra; trail = g.trail; numbered = g.numbered })
    Grown-after_answer (err e) st h =
        let g = Grown-begun st h in
        Grown-append k old _ _ (record { extra = g.extra; trail = g.trail; numbered = g.numbered })

module _ {W : Type 0} (E : Env W) where
  -- The audit trail is append-only: any request on a store at rest, other than the deletion of
  -- this very id, leaves the id's trail as it was followed by events of ascending numbers above
  -- the old counter and at most the new one.
  pub perform-Grown :
      (op : Operation) (now : Time) (s : Sys W) (k : String)
      → AtRest s.store
      → Spares op k
      → Grown k s.store (perform E op now s).store
  perform-Grown (registers req) now s k rest spares =
      register_keeps E req now (λ period st. Grown-put k s.store _ _ st)
        (λ period st. Grown-append k s.store _ st) s (Grown-start k s.store)
  perform-Grown (provisions req) now s k rest spares =
      (Keeps-provision E req now (λ v. Grown-Admits k s.store req _ _ now)).at s
        (Grown-start k s.store)
  perform-Grown (rotates req) now s k rest spares =
      rotate_keeps E req now (Grown-Outlasts k s.store req.id) s (Grown-start k s.store)
        λ v found act r. Grown-after_answer k s.store req now v r s.store (Grown-start k s.store)
  perform-Grown (retires req) now s k rest spares =
      retire_keeps E req now (Grown-Absorbs k s.store req.id _)
        (λ view st. Grown-put k s.store _ _ st) (λ view st. Grown-append k s.store _ st) s
        (Grown-start k s.store)
  perform-Grown (deletes req) now s k rest spares =
      delete_keeps E req now (Grown-Absorbs k s.store req.id _)
        (λ v own st. Grown-append k s.store _ st) (λ st. Grown-purge k s.store req.id st spares) s
        (λ v found. (rest.at req.id v found).own_id) (Grown-start k s.store)
  perform-Grown (uses req) now s k rest spares =
      use_keeps E req now (Grown-Absorbs k s.store req.id _) s
        (λ v found. (rest.at req.id v found).own_id) (Grown-start k s.store)

abbrev NumberedAt : String → Store → Type 0
NumberedAt k st = Numbered k 0 st.next_event (events_of k st)

NumberedAt-append :
    (k : String) (d : Draft) (st : Store) → NumberedAt k st → NumberedAt k (append_event d st)
NumberedAt-append k d st h =
    Numbered-Grown k st (append_event d st) h (Grown-append k st d st (Grown-start k st))

events_of-purge :
    (i k : String) (st : Store) → events_of k (purge i st) ≡ (if i == k then [] else events_of k st)
events_of-purge i k st = ground (arith, lookup-delete i k st.events)

NumberedAt-purge : (k i : String) (st : Store) → NumberedAt k st → NumberedAt k (purge i st)
NumberedAt-purge k i st h = elim (Bool-cases (i == k)) [
  | inl e ↦
      let p : events_of k (purge i st) ≡ [] = events_of-purge i k st ∙ (rw e refl) in
      subst (Numbered k 0 st.next_event) (sym p) (omega arith)
  | inr e ↦
      let p : events_of k (purge i st) ≡ events_of k st = events_of-purge i k st ∙ (rw e refl) in
      subst (Numbered k 0 st.next_event) (sym p) h
]

module _ {W : Type 0} (E : Env W) where
  deleted-NumberedAt :
      (req : DeleteRequest) (now : Time) (s : Sys W) (k : String)
      → AtRest s.store
      → NumberedAt k s.store
      → NumberedAt k (perform E (deletes req) now s).store
  deleted-NumberedAt req now s k rest h =
      delete_keeps E req now (λ d p q st. NumberedAt-append k d st)
        (λ v own st. NumberedAt-append k _ st) (λ st. NumberedAt-purge k req.id st) s
        (λ v found. (rest.at req.id v found).own_id) h

  perform-NumberedAt :
      (op : Operation) (now : Time) (s : Sys W) (k : String)
      → AtRest s.store
      → NumberedAt k s.store
      → NumberedAt k (perform E op now s).store
  perform-NumberedAt (deletes req) now s k rest h = deleted-NumberedAt req now s k rest h
  perform-NumberedAt (registers req) now s k rest h =
      Numbered-Grown k s.store _ h (perform-Grown E (registers req) now s k rest tt)
  perform-NumberedAt (provisions req) now s k rest h =
      Numbered-Grown k s.store _ h (perform-Grown E (provisions req) now s k rest tt)
  perform-NumberedAt (rotates req) now s k rest h =
      Numbered-Grown k s.store _ h (perform-Grown E (rotates req) now s k rest tt)
  perform-NumberedAt (retires req) now s k rest h =
      Numbered-Grown k s.store _ h (perform-Grown E (retires req) now s k rest tt)
  perform-NumberedAt (uses req) now s k rest h =
      Numbered-Grown k s.store _ h (perform-Grown E (uses req) now s k rest tt)

  -- Over any sequence of requests on a store at rest, each trail keeps ascending event numbers,
  -- none above the counter, and events of its own identity only.
  pub perform_all-Ledger :
      (ops : List (Operation × Time)) (s : Sys W)
      → AtRest s.store
      → Ledger s.store
      → Ledger (perform_all E ops s).store
  perform_all-Ledger [] s rest h = h
  perform_all-Ledger ((op, now) ∷ ops) s rest h =
      perform_all-Ledger ops (perform E op now s) (perform-AtRest E op now s rest)
        (record { at = λ k. perform-NumberedAt op now s k rest (h.at k) })
