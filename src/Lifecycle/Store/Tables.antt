-- ===== src/Lifecycle/Store/Tables.antt =====
-- Reading the three maps of the store behind a write.
use mutandae.Prelude.{
  ℕ, ◌+◌, String, ◌≡◌, refl, ap, some, List, [], ◌∷◌, ◌++◌, length, set, lookup, lookup-insert,
  ◌==◌, string_eq, eq_iff, if◌then◌else◌, arith,
}
use mutandae.Protocol.{MachineIdentity, RotationRun}
use mutandae.Lifecycle.Store.{
  Draft, append_event, event_of, events_of, runs_of, put_identity, push_run, set_run,
}
use mutandae.Lifecycle.Store.Monad.{Store}

-- Replacing the element behind `xs`.
pub set-append {ℓ} :
    {A : Type ℓ} (xs : List A) (x y : A) → set (xs ++ x ∷ []) (length xs) y ≡ xs ++ y ∷ []
set-append [] x y = refl
set-append (z ∷ xs) x y = ap (◌∷◌ z) (set-append xs x y)

module _ (j : String) (st : Store) where
  pub lookup-put_identity :
      (k : String) (v : MachineIdentity)
      → lookup j (put_identity k v st).identities
        ≡ (if k == j then some v else lookup j st.identities)
  lookup-put_identity k v = lookup-insert k j v st.identities

  pub events_of-append_event :
      (d : Draft)
      → events_of j (append_event d st) ≡ (
          if d.identity_id == j
          then events_of j st ++ event_of (st.next_event + 1) d ∷ []
          else events_of j st)
  events_of-append_event d = ground (
    arith,
    lookup-insert d.identity_id j
        (events_of d.identity_id st ++ event_of (st.next_event + 1) d ∷ []) st.events,
    eq_iff d.identity_id j,
  )

  pub runs_of-push_run :
      (k : String) (run : RotationRun)
      → runs_of j (push_run k run st) ≡ (if k == j then runs_of j st ++ run ∷ [] else runs_of j st)
  runs_of-push_run k run =
      ground (arith, lookup-insert k j (runs_of k st ++ run ∷ []) st.runs, eq_iff k j)

  pub runs_of-set_run :
      (k : String) (i : ℕ) (run : RotationRun)
      → runs_of j (set_run k i run st) ≡ (if k == j then set (runs_of j st) i run else runs_of j st)
  runs_of-set_run k i run =
      ground (arith, lookup-insert k j (set (runs_of k st) i run) st.runs, eq_iff k j)

pub ruleset tables =
    (lookup-put_identity, events_of-append_event, runs_of-push_run, runs_of-set_run)
