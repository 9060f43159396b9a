-- ===== src/Lifecycle/Store/Snapshots.antt =====
-- internal/lifecycle/persistence.go.
use mutandae.Prelude.{
  String, Bool, none, some, List, [], ◌∷◌, ◌++◌, Dict, insert, lookup, values, get_or, str_lt,
  if◌then◌else◌,
}
use mutandae.Protocol.{MachineIdentity, LifecycleEvent, RotationRun}
use mutandae.Protocol.Errors.{Result, ok, err, wrap, persistence_failure}
use mutandae.Lifecycle.Env.{Env, Snapshot}
use mutandae.Lifecycle.Store.Monad.{Store, Action, ask, pure, raise, ◌>>=◌}

-- `sort.Slice` by `less`, as an insertion sort: where `less` tells all elements apart, the result of
-- a sort is unique.
module _ {A : Type 0} (less : A → A → Bool) where
  unfoldable pub insert_sorted : A → List A → List A
  insert_sorted x [] = x ∷ []
  insert_sorted x (y ∷ ys) =
      let rest = y ∷ insert_sorted x ys in if less y x then rest else x ∷ y ∷ ys

  unfoldable pub sort : List A → List A
  unfolding insert_sorted
  sort [] = []
  sort (x ∷ xs) = insert_sorted x (sort xs)

abbrev pub identity_before : MachineIdentity → MachineIdentity → Bool
identity_before a b = str_lt a.id b.id

abbrev pub event_before : LifecycleEvent → LifecycleEvent → Bool
event_before a b = str_lt a.id b.id

abbrev pub run_before : RotationRun → RotationRun → Bool
run_before a b = str_lt a.id b.id

abbrev pub concat {ℓ} : {A : Type ℓ} → List (List A) → List A
concat [] = []
concat (xs ∷ xss) = xs ++ concat xss

unfoldable pub snapshot : Store → Snapshot
unfolding sort
snapshot st = record {
  identities = sort identity_before (values st.identities);
  events = sort event_before (concat (values st.events));
  runs = sort run_before (concat (values st.runs));
  next_event = st.next_event;
  next_run = st.next_run;
}

-- The loops of `restoreLocked`; `acc` is the map that they fill.
unfoldable pub restore_identities :
    List MachineIdentity → Dict MachineIdentity → Dict MachineIdentity
restore_identities [] acc = acc
restore_identities (v ∷ vs) acc = restore_identities vs (insert v.id v acc)

module _ {A : Type 0} (key : A → String) where
  unfoldable pub group : List A → Dict (List A) → Dict (List A)
  group [] acc = acc
  group (x ∷ xs) acc = group xs (insert (key x) (get_or (lookup (key x) acc) [] ++ x ∷ []) acc)

unfoldable pub restore : Snapshot → Store
unfolding restore_identities group
restore snap = record {
  identities = restore_identities snap.identities [];
  events = group (λ e. e.identity_id) snap.events [];
  runs = group (λ r. r.identity_id) snap.runs [];
  next_event = snap.next_event;
  next_run = snap.next_run;
}

abbrev saved : {W : Type 0} → Result (Unit {0}) → Action W (Unit {0})
saved (ok _) = pure tt
saved (err e) = raise (wrap persistence_failure e.text)

-- `persistLocked`
unfoldable pub persist : {W : Type 0} → Env W → Action W (Unit {0})
unfolding snapshot
persist E s = elim E.repository [
  | none ↦ (ok tt, s)
  | some repository ↦ (ask (repository.save (snapshot s.store)) >>= saved) s
]
