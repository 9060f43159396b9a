-- ===== src/Lifecycle/Boot/Start.antt =====
-- The two invariants of the store, from `newStore` of internal/lifecycle/lifecycle.go on.
use mutandae.Prelude.{String, ◌≡◌, ◌≢◌, refl, inl, Option, none, some, List, [], ◌∷◌, arith, lookup}
use mutandae.Protocol.{MachineIdentity, Time, active, actor_control_plane}
use mutandae.Protocol.Errors.{Result, ok, err, errors_is, no_snapshot}
use mutandae.Lifecycle.Env.{Env, Repository, Snapshot}
use mutandae.Lifecycle.Boot.{
  new_store, boot_with, discover_all, settle_discovery, settle_load, save_first,
}
use mutandae.Lifecycle.Register.{
  adopt, adopt_all, adopted, fix_identity, discovered_event, registered_event,
}
use mutandae.Lifecycle.Store.{events_of, Draft, append_event, empty_store, put_identity}
use mutandae.Lifecycle.Store.AtRest.{AtRest, Holds-put}
use mutandae.Lifecycle.Store.Ids.{DistinctIds, Ledger-DistinctIds}
use mutandae.Lifecycle.Store.Keeps.{
  Keeps, Keeps-add_event, Keeps-ask, Keeps-bind, Keeps-lift, Keeps-modify, Keeps-pure, Keeps-raise,
  Keeps-if,
}
use mutandae.Lifecycle.Store.Monad.{Store, ask, lift}
use mutandae.Lifecycle.Store.Numbers.{Grown-append, Grown-start, Ledger, Numbered-Grown}
use mutandae.Lifecycle.Store.Snapshots.{snapshot, restore}
use mutandae.Lifecycle.Operations.{Operation, perform_all}
use mutandae.Lifecycle.Operations.Rest.{perform_all-AtRest}
use mutandae.Lifecycle.Operations.Ledger.{perform_all-Ledger}

-- Both invariants of the store.
pub record WellFormed (st : Store) : Type 0 where
  pub at_rest : AtRest st
  pub ledger : Ledger st

none≢some : {A : Type 0} {a : A} → none ≢ some a
none≢some p = cc

pub WellFormed-empty : WellFormed empty_store
unfolding lookup
WellFormed-empty = record {
  at_rest = record { at = λ k v h. absurd (none≢some h) };
  ledger = record { at = λ k. omega arith };
}

WellFormed-append : (d : Draft) (st : Store) → WellFormed st → WellFormed (append_event d st)
WellFormed-append d st h = record {
  at_rest = record { at = h.at_rest.at };
  ledger = record {
    at = λ k.
        Numbered-Grown k st (append_event d st) (h.ledger.at k)
          (Grown-append k st d st (Grown-start k st));
  };
}

pub WellFormed-put :
    (v : MachineIdentity) (st : Store)
    → v.state ≡ active
    → WellFormed st
    → WellFormed (put_identity v.id v st)
WellFormed-put v st act h = record {
  at_rest =
      Holds-put v.id v st h.at_rest (record { own_id = refl; state_settled = inl act })
        (λ j u ne k. k);
  ledger = record { at = h.ledger.at };
}

module _ {W : Type 0} (E : Env W) (now : Time) where
  Keeps-adopt : (v : MachineIdentity) → Keeps WellFormed (adopt E v now)
  unfolding adopt
  Keeps-adopt v =
      let u = adopted v now in
      Keeps-bind _ _
        (Keeps-bind _ _
          (Keeps-bind _ _ (Keeps-lift _) λ _. Keeps-modify _ (λ st. WellFormed-put u st refl))
          λ _.
            Keeps-add_event E (discovered_event u now "Discovered" u.provider.provider)
              (WellFormed-append _))
        λ _. Keeps-add_event E (registered_event u now actor_control_plane) (WellFormed-append _)

  Keeps-adopt_all : (vs : List MachineIdentity) → Keeps WellFormed (adopt_all E vs now)
  unfolding adopt_all
  Keeps-adopt_all [] = Keeps-pure tt
  Keeps-adopt_all (v ∷ vs) = Keeps-bind _ _ (Keeps-adopt (fix_identity v)) λ _. Keeps-adopt_all vs

  Keeps-settle_discovery :
      (r : Result (List MachineIdentity)) → Keeps WellFormed (settle_discovery E now r)
  unfolding settle_discovery
  Keeps-settle_discovery (ok vs) = Keeps-adopt_all vs
  Keeps-settle_discovery (err e) = Keeps-raise _

  Keeps-discover_all : Keeps WellFormed (discover_all E now)
  unfolding discover_all
  Keeps-discover_all = Keeps-bind _ _ (Keeps-ask E.adapter.discover) Keeps-settle_discovery

-- What the database hands over is well-formed.
abbrev pub LoadsWellFormed : {W : Type 0} → Env W → Type 0
LoadsWellFormed {W} E =
    (repository : Repository W)
    → E.repository ≡ some repository
    → (w : W) (snap : Snapshot) → (repository.load w).0 ≡ ok snap
    → WellFormed (restore snap)

module _ {W : Type 0} (E : Env W) (now : Time) where
  Keeps-save_first : (repository : Repository W) → Keeps WellFormed (save_first E repository)
  unfolding save_first
  Keeps-save_first repository = record {
    at = λ s.
        (Keeps-bind {P = WellFormed} (ask (repository.save (snapshot s.store))) lift (Keeps-ask _)
            Keeps-lift).at
          s;
  }

  Keeps-settle_load :
      (repository : Repository W) (r : Result Snapshot)
      → ((snap : Snapshot) → r ≡ ok snap → WellFormed (restore snap))
      → Keeps WellFormed (settle_load E repository now r)
  unfolding settle_load
  Keeps-settle_load repository (ok snap) loads =
      Keeps-modify (λ st. restore snap) (λ st h. loads snap refl)
  Keeps-settle_load repository (err e) loads =
      Keeps-if (errors_is e no_snapshot) _ _
        (Keeps-bind _ _ (Keeps-discover_all E now) (λ _. Keeps-save_first repository))
        (Keeps-raise _)

  booted :
      (o : Option (Repository W)) (w : W)
      → E.repository ≡ o
      → LoadsWellFormed E
      → WellFormed (boot_with E o now (record { store = empty_store; world = w })).1.store
  unfolding boot_with
  booted none w e loads = (Keeps-discover_all E now).at _ WellFormed-empty
  booted (some repository) w e loads =
      (Keeps-settle_load repository (repository.load w).0 (loads repository e w)).at
        (record { store = empty_store; world = (repository.load w).1 }) WellFormed-empty

  -- The store starts well-formed, even where starting fails half-way.
  pub new_store_lem : (w : W) → LoadsWellFormed E → WellFormed (new_store E now w).1.store
  unfolding new_store
  new_store_lem w loads = booted E.repository w refl loads

  -- If the database hands over well-formed stores only, the store is well-formed after start-up,
  -- even where that fails half-way, and after any sequence of register, provision, rotate,
  -- retire, delete and use requests: each identity is stored under its own id and is active or
  -- retired, and each trail carries ascending event numbers of its own identity, none above the
  -- counter.
  pub served :
      (w : W) (ops : List (Operation × Time))
      → LoadsWellFormed E
      → WellFormed (perform_all E ops (new_store E now w).1).store
  served w ops loads =
      let h = new_store_lem w loads in
      record {
        at_rest = perform_all-AtRest E ops _ h.at_rest;
        ledger = perform_all-Ledger E ops _ h.at_rest h.ledger;
      }

  -- If the database hands over well-formed stores only, then after start-up and any sequence of
  -- requests no two events of one trail have the same id.
  pub served-DistinctIds :
      (w : W) (ops : List (Operation × Time)) (k : String)
      → LoadsWellFormed E
      → DistinctIds (events_of k (perform_all E ops (new_store E now w).1).store)
  served-DistinctIds w ops k loads = Ledger-DistinctIds k _ (served w ops loads).ledger
