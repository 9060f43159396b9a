-- ===== src/Prelude/Entries.antt =====
-- Predicates over the entries of a map, and its size.
use Prim.Native.Nat.{◌+◌, ◌≤◌}
use Prim.Native.String.{String}
use mathlib.Core.Path.{◌≡◌, refl, sym, ap, ◌∙◌}
use mathlib.Core.Logic.{inl, inr}
use mathlib.Core.List.{List, [], ◌∷◌}
use mathlib.Core.Option.{none, some}
use native.Mathlib.Omega.{arith}
use text.Mathlib.TextEquality.{eq_iff}
use mutandae.Prelude.Tests.{◌==◌, string_eq, Bool-cases}
use mutandae.Prelude.Lists.{length, All}
use mutandae.Prelude.Dicts.{Dict, lookup, insert, delete, lookup-insert}

module _ {ℓ} {V : Type ℓ} where
  pub length-insert : (k : String) (v : V) (m : Dict V) → length (insert k v m) ≤ length m + 1
  unfolding insert
  length-insert k v [] = omega arith
  length-insert k v ((j, w) ∷ m) = ground (arith, length-insert k v m)

  pub length-insert_known :
      (k : String) (v w : V) (m : Dict V) → lookup k m ≡ some w → length (insert k v m) ≡ length m
  unfolding insert lookup
  length-insert_known k v w [] h = cc
  length-insert_known k v w ((j, u) ∷ m) h = ground (arith, length-insert_known k v w m)

  pub length-delete : (k : String) (m : Dict V) → length (delete k m) ≤ length m
  unfolding delete
  length-delete k [] = omega arith
  length-delete k ((j, u) ∷ m) = ground (arith, length-delete k m)

  module _ {κ} (P : String → V → Type κ) where
    pub All-insert :
        (k : String) (v : V) (m : Dict V)
        → P k v
        → All (λ e. P e.0 e.1) m
        → All (λ e. P e.0 e.1) (insert k v m)
    unfolding insert
    All-insert k v [] new h = (new, tt)
    All-insert k v ((j, w) ∷ m) new h = elim (Bool-cases (j == k)) [
      | inl e ↦ rw e (new, h.1)
      | inr e ↦ rw e (h.0, All-insert k v m new h.1)
    ]

    pub All-delete :
        (k : String) (m : Dict V) → All (λ e. P e.0 e.1) m → All (λ e. P e.0 e.1) (delete k m)
    unfolding delete
    All-delete k [] h = tt
    All-delete k ((j, w) ∷ m) h = elim (Bool-cases (j == k)) [
      | inl e ↦ rw e (All-delete k m h.1)
      | inr e ↦ rw e (h.0, All-delete k m h.1)
    ]

    pub All-lookup :
        (k : String) (v : V) (m : Dict V) → All (λ e. P e.0 e.1) m → lookup k m ≡ some v → P k v
    unfolding lookup
    All-lookup k v [] h found = cc
    All-lookup k v ((j, w) ∷ m) h found = elim (Bool-cases (j == k)) [
      | inl e ↦ let here : w ≡ v = ground arith in rw (← here, ← ((eq_iff j k).0 e)) h.0
      | inr e ↦ All-lookup k v m h.1 (ground arith)
    ]

pub All-mono {ℓ κ} :
    {A : Type ℓ} (P Q : A → Type κ) (xs : List A) → ((a : A) → P a → Q a) → All P xs → All Q xs
All-mono P Q [] step h = tt
All-mono P Q (x ∷ xs) step h = (step x h.0, All-mono P Q xs step h.1)

module _ {ℓ} {V : Type ℓ} where
  -- One entry for a key, as in a Go map.
  abbrev pub Keyed : Dict V → Type ℓ
  Keyed [] = Unit
  Keyed ((k, v) ∷ m) = (lookup k m ≡ none) × Keyed m

  pub Keyed-insert : (k : String) (v : V) (m : Dict V) → Keyed m → Keyed (insert k v m)
  unfolding insert lookup
  Keyed-insert k v [] h = (refl, tt)
  Keyed-insert k v ((j, w) ∷ m) (new, h) = elim (Bool-cases (j == k)) [
    | inl e ↦ rw e (ap (λ i. lookup i m) (sym ((eq_iff j k).0 e)) ∙ new, h)
    | inr e ↦
        rw e (ground (arith, lookup-insert k j v m, eq_iff k j, eq_iff j k), Keyed-insert k v m h)
  ]

  -- Under a key that is not there, anything holds.
  pub All-absent {κ} :
      (Q : V → Type κ) (k : String) (m : Dict V) → lookup k m ≡ none → All (λ e. e.0 ≡ k → Q e.1) m
  unfolding lookup
  All-absent Q k [] h = tt
  All-absent Q k ((j, w) ∷ m) h = elim (Bool-cases (j == k)) [
    | inl e ↦ absurd (ground arith)
    | inr e ↦ (λ same. absurd (ground (arith, eq_iff j k, same)), All-absent Q k m (ground arith))
  ]

  pub All-insert_here {κ} :
      (Q : V → Type κ) (k : String) (v : V) (m : Dict V)
      → Q v
      → Keyed m
      → All (λ e. e.0 ≡ k → Q e.1) (insert k v m)
  unfolding insert
  All-insert_here Q k v [] q h = (λ same. q, tt)
  All-insert_here Q k v ((j, w) ∷ m) q (new, h) = elim (Bool-cases (j == k)) [
    | inl e ↦
        rw e (λ same. q, All-absent Q k m (ap (λ i. lookup i m) (sym ((eq_iff j k).0 e)) ∙ new))
    | inr e ↦ rw e (λ same. absurd (ground (arith, eq_iff j k, same)), All-insert_here Q k v m q h)
  ]
