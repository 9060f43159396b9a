-- ===== src/Lifecycle/Store/AtRest.antt =====
-- What holds of the stored identities between two operations.
use mutandae.Prelude.{
  String, ◌≡◌, ◌≢◌, ◌⊎◌, inl, inr, sym, ◌∙◌, Bool-cases, some, Dict, lookup, insert, delete,
  lookup-insert, lookup-delete, ◌==◌, string_eq, eq_iff,
}
use mutandae.Protocol.{MachineIdentity, active, retired}
use mutandae.Lifecycle.Store.{put_identity}
use mutandae.Lifecycle.Store.Monad.{Store}

-- Each stored identity satisfies `P` at its key.
pub record Holds (P : String → MachineIdentity → Type 0) (st : Store) : Type 0 where
  pub at : (k : String) (v : MachineIdentity) → lookup k st.identities ≡ some v → P k v

-- An identity is stored under its id, and no transition is under way.
pub record Settled (k : String) (v : MachineIdentity) : Type 0 where
  pub own_id : v.id ≡ k
  pub state_settled : (v.state ≡ active) ⊎ (v.state ≡ retired)

abbrev pub AtRest : Store → Type 0
AtRest = Holds Settled

-- The same of all other keys.
abbrev pub SettledBut : String → String → MachineIdentity → Type 0
SettledBut i k v = k ≢ i → Settled k v

put_cases :
    (P : String → MachineIdentity → Type 0) (k : String) (v : MachineIdentity)
    (m : Dict MachineIdentity)
    → P k v
    → ((j : String) (u : MachineIdentity) → j ≢ k → lookup j m ≡ some u → P j u)
    → (j : String) (u : MachineIdentity) → lookup j (insert k v m) ≡ some u
    → P j u
put_cases P k v m own other j u h = elim (Bool-cases (k == j)) [
  | inl e ↦
      let p : k ≡ j = (eq_iff k j).0 e in
      let q : some v ≡ some u = sym (lookup-insert k j v m ∙ (rw e)) ∙ h in
      rw (← p) (rw (← some-inj v u q) own)
  | inr e ↦
      other j u (λ p. cc (e, (eq_iff k j).1 (sym p))) (sym (lookup-insert k j v m ∙ (rw e)) ∙ h)
]
  where
    some-inj : (a b : MachineIdentity) → some a ≡ some b → a ≡ b
    some-inj a b e = cc

module _ {P Q : String → MachineIdentity → Type 0} where
  pub Holds-put :
      (k : String) (v : MachineIdentity) (st : Store)
      → Holds P st
      → Q k v
      → ((j : String) (u : MachineIdentity) → j ≢ k → P j u → Q j u)
      → Holds Q (put_identity k v st)
  Holds-put k v st h own other = record {
    at = put_cases Q k v st.identities own (λ j u ne l. other j u ne (h.at j u l));
  }

  pub Holds-delete :
      (k : String) (st : Store)
      → Holds P st
      → ((j : String) (u : MachineIdentity) → j ≢ k → P j u → Q j u)
      → Holds Q (record st { identities = delete k st.identities })
  Holds-delete k st h other = record {
    at = λ j u l. elim (Bool-cases (k == j)) [
      | inl e ↦ cc (lookup-delete k j st.identities, e, l)
      | inr e ↦
          other j u (λ p. cc (e, (eq_iff k j).1 (sym p)))
            (h.at j u (sym (lookup-delete k j st.identities ∙ (rw e)) ∙ l))
    ];
  }
