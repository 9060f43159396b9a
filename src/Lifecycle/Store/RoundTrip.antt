-- ===== src/Lifecycle/Store/RoundTrip.antt =====
-- The identities through `snapshotLocked` and `restoreLocked`.
use mutandae.Prelude.{
  String, ◌≡◌, refl, ◌∙◌, arith, Bool-cases, inl, inr, Option, none, some, List, [], ◌∷◌, All, Dict,
  lookup, insert, lookup-insert, Keyed, values, ◌==◌, string_eq, eq_iff, eq_refl, if◌then◌else◌,
}
use mutandae.Protocol.{MachineIdentity}
use mutandae.Lifecycle.Store.AtRest.{AtRest}
use mutandae.Lifecycle.Store.Monad.{Store}
use mutandae.Lifecycle.Store.Snapshots.{
  identity_before, insert_sorted, restore, restore_identities, snapshot, sort,
}

find : String → List MachineIdentity → Option MachineIdentity
find k [] = none
find k (v ∷ vs) = if v.id == k then some v else find k vs

Uniq : List MachineIdentity → Type 0
unfolding find
Uniq [] = Unit
Uniq (v ∷ vs) = (find v.id vs ≡ none) × Uniq vs

or_else : Option MachineIdentity → Option MachineIdentity → Option MachineIdentity
or_else none b = b
or_else (some v) b = some v

lookup-restore_identities :
    (k : String) (vs : List MachineIdentity) (acc : Dict MachineIdentity)
    → Uniq vs
    → lookup k (restore_identities vs acc) ≡ or_else (find k vs) (lookup k acc)
unfolding restore_identities find Uniq or_else
lookup-restore_identities k [] acc h = refl
lookup-restore_identities k (v ∷ vs) acc (new, h) =
    lookup-restore_identities k vs (insert v.id v acc) h
    ∙ (ground (arith, lookup-insert v.id k v acc, eq_iff v.id k, new))

find-insert_sorted :
    (k : String) (x : MachineIdentity) (ys : List MachineIdentity)
    → find x.id ys ≡ none
    → find k (insert_sorted identity_before x ys) ≡ (if x.id == k then some x else find k ys)
unfolding find insert_sorted
find-insert_sorted k x [] h = refl
find-insert_sorted k x (y ∷ ys) h =
    ground (arith, find-insert_sorted k x ys, eq_iff x.id k, eq_iff y.id k, eq_iff y.id x.id)

Uniq-insert_sorted :
    (x : MachineIdentity) (ys : List MachineIdentity)
    → find x.id ys ≡ none
    → Uniq ys
    → Uniq (insert_sorted identity_before x ys)
unfolding find insert_sorted Uniq
Uniq-insert_sorted x [] new h = (refl, tt)
Uniq-insert_sorted x (y ∷ ys) new (own, h) = elim (Bool-cases (identity_before y x)) [
  | inl e ↦
      let fresh : find x.id ys ≡ none = ground (arith, new) in
      let apart : find y.id (insert_sorted identity_before x ys) ≡ none =
        find-insert_sorted y.id x ys fresh
        ∙ (ground (arith, new, own, eq_iff x.id y.id, eq_iff y.id x.id)) in
      rw e (apart, Uniq-insert_sorted x ys fresh h)
  | inr e ↦ rw e (new, (own, h))
]

find-sort :
    (k : String) (vs : List MachineIdentity)
    → Uniq vs
    → (find k (sort identity_before vs) ≡ find k vs) × Uniq (sort identity_before vs)
unfolding find sort Uniq
find-sort k [] h = (refl, tt)
find-sort k (v ∷ vs) (new, h) =
    let there = find-sort v.id vs h in
    let fresh : find v.id (sort identity_before vs) ≡ none = there.0 ∙ new in
    (
      find-insert_sorted k v (sort identity_before vs) fresh ∙ (rw (find-sort k vs h).0 refl),
      Uniq-insert_sorted v (sort identity_before vs) fresh there.1,
    )

-- Each entry has the id of its identity as its key.
abbrev OwnKeys : Dict MachineIdentity → Type 0
OwnKeys = All (λ p. p.1.id ≡ p.0)

OwnKeys-found :
    (m : Dict MachineIdentity)
    → Keyed m
    → ((k : String) (v : MachineIdentity) → lookup k m ≡ some v → v.id ≡ k)
    → OwnKeys m
unfolding lookup
OwnKeys-found [] keyed own = tt
OwnKeys-found ((j, v) ∷ m) (new, keyed) own = (
  own j v (ground (arith, eq_refl j)),
  OwnKeys-found m keyed λ k u h. own k u (ground (arith, h, new, eq_iff j k)),
)

find-values :
    (k : String) (m : Dict MachineIdentity)
    → Keyed m
    → OwnKeys m
    → (find k (values m) ≡ lookup k m) × Uniq (values m)
unfolding find lookup values Uniq
find-values k [] keyed own = (refl, tt)
find-values k ((j, v) ∷ m) (new, keyed) (same, own) =
    let here = find-values v.id m keyed own in
    let there = find-values k m keyed own in
    (rw (same, there.0) refl, (here.0 ∙ (rw same new), here.1))

-- In a store at rest whose map of identities has one entry for a key, each id has the same
-- identity after a snapshot is taken and restored.
pub restore-snapshot :
    (k : String) (st : Store)
    → Keyed st.identities
    → AtRest st
    → lookup k (restore (snapshot st)).identities ≡ lookup k st.identities
unfolding restore snapshot lookup or_else
restore-snapshot k st keyed rest =
    let own = OwnKeys-found st.identities keyed (λ j v h. (rest.at j v h).own_id) in
    let vals = find-values k st.identities keyed own in
    let sorted = find-sort k (values st.identities) vals.1 in
    lookup-restore_identities k (sort identity_before (values st.identities)) [] sorted.1
    ∙ (rw (sorted.0, vals.0) (or_none (lookup k st.identities)))
  where
    or_none : (o : Option MachineIdentity) → or_else o none ≡ o
    or_none none = refl
    or_none (some v) = refl
