-- ===== src/Lifecycle/Operations/Rest.antt =====
-- The states of the stored identities over runs of operations.
use mutandae.Prelude.{String, ◌≡◌, refl, ◌∙◌, inl, inr, List, [], ◌∷◌}
use mutandae.Protocol.{MachineIdentity, Time, EventType, ProvisionRequest, active}
use mutandae.Lifecycle.Env.{Env}
use mutandae.Lifecycle.Operations.{
  Operation, registers, provisions, rotates, retires, deletes, uses, perform, perform_all,
}
use mutandae.Lifecycle.Provision.Induction.{Admits, Keeps-provision}
use mutandae.Lifecycle.Register.Induction.{register_keeps}
use mutandae.Lifecycle.Retire.{purge}
use mutandae.Lifecycle.Retire.Induction.{retire_keeps, delete_keeps}
use mutandae.Lifecycle.Rotate.Rest.{rotate-AtRest}
use mutandae.Lifecycle.Store.{Draft, append_event, put_identity}
use mutandae.Lifecycle.Store.AtRest.{Settled, AtRest, Holds-put, Holds-delete}
use mutandae.Lifecycle.Store.Monad.{Store, Sys}
use mutandae.Lifecycle.Use.Induction.{use_keeps}
use mutandae.Lifecycle.Vaults.Keeps.{Absorbs}

AtRest-append : (d : Draft) (st : Store) → AtRest st → AtRest (append_event d st)
AtRest-append d st h = record { at = h.at }

AtRest-put :
    (k : String) (v : MachineIdentity) (st : Store)
    → AtRest st
    → Settled k v
    → AtRest (put_identity k v st)
AtRest-put k v st h good = Holds-put k v st h good (λ j u ne k. k)

AtRest-purge : (id : String) (st : Store) → AtRest st → AtRest (purge id st)
AtRest-purge id st h = record { at = (Holds-delete {Q = Settled} id st h (λ j u ne k. k)).at }

AtRest-Absorbs : (id : String) (kind : EventType) → Absorbs AtRest id kind
AtRest-Absorbs id kind d p q st h = AtRest-append d st h

AtRest-Admits :
    (req : ProvisionRequest) (tenant : String) (v : MachineIdentity) (now : Time)
    → v.state ≡ active
    → Admits AtRest req tenant v now
AtRest-Admits req tenant v now act = record {
  puts = λ u own same well st h.
      AtRest-put u.id u st h (record { own_id = refl; state_settled = inl (same ∙ act) });
  discovery = λ st h. AtRest-append _ st h;
  registration = λ st h. AtRest-append _ st h;
  deliveries = AtRest-Absorbs v.id _;
}

module _ {W : Type 0} (E : Env W) where
  -- Whatever the provider, the vaults and the database answer.
  pub perform-AtRest :
      (op : Operation) (now : Time) (s : Sys W) → AtRest s.store → AtRest (perform E op now s).store
  perform-AtRest (registers req) now s h =
      register_keeps E req now
        (λ period st k. AtRest-put _ _ st k (record { own_id = refl; state_settled = inl refl }))
        (λ period st k. AtRest-append _ st k) s h
  perform-AtRest (provisions req) now s h =
      (Keeps-provision E req now (λ v. AtRest-Admits req _ _ now refl)).at s h
  perform-AtRest (rotates req) now s h = rotate-AtRest E req now s h
  perform-AtRest (retires req) now s h =
      retire_keeps E req now (AtRest-Absorbs req.id _)
        (λ view st k. AtRest-put _ _ st k (record { own_id = refl; state_settled = inr refl }))
        (λ view st k. AtRest-append _ st k) s h
  perform-AtRest (deletes req) now s h =
      delete_keeps E req now (AtRest-Absorbs req.id _) (λ v own st k. AtRest-append _ st k)
        (AtRest-purge req.id) s (λ v found. (h.at req.id v found).own_id) h
  perform-AtRest (uses req) now s h =
      use_keeps E req now (AtRest-Absorbs req.id _) s (λ v found. (h.at req.id v found).own_id) h

  -- Any sequence of requests on a store in which each identity is stored under its own id and is
  -- active or retired leaves it so: no rotation stays under way, whatever the collaborators
  -- answer.
  pub perform_all-AtRest :
      (ops : List (Operation × Time)) (s : Sys W)
      → AtRest s.store
      → AtRest (perform_all E ops s).store
  perform_all-AtRest [] s h = h
  perform_all-AtRest ((op, now) ∷ rest) s h =
      perform_all-AtRest rest (perform E op now s) (perform-AtRest op now s h)
