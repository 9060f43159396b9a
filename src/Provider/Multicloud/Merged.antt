-- ===== src/Provider/Multicloud/Merged.antt =====
-- What `Discover` of the composite returns when every adapter answers.
use mutandae.Prelude.{
  String, ◌≡◌, refl, sym, ◌∙◌, ap, arith, Bool, false, not, Bool-cases, inl, inr, List, [], ◌∷◌,
  ◌++◌, filter, ◌<>◌, ◌==◌, string_eq, eq_iff, if◌then◌else◌,
}
use mathlib.Core.List.{append_assoc, append-nil}
use mutandae.Protocol.{MachineIdentity}
use mutandae.Protocol.Errors.{ok}
use mutandae.Provider.Multicloud.{
  CloudAdapter, MultiProvider, identity_key, merge_view, seen_before, discover_view, discover_each,
  multi_discover,
}

-- The provider and the identity's id there.
abbrev pub place : MachineIdentity → String
place v = v.provider.provider <> "/" <> v.provider.provider_id

-- The first identity of each key, in order.
abbrev pub first_of_key : List MachineIdentity → List MachineIdentity
first_of_key [] = []
first_of_key (v ∷ vs) = v ∷ filter (λ u. not (place v == place u)) (first_of_key vs)

abbrev pub one_view : List (List MachineIdentity) → List MachineIdentity
one_view [] = []
one_view (view ∷ views) = view ++ one_view views

-- The adapters answer with these views, one after the other.
abbrev pub Answer :
    {W : Type 0} → List (CloudAdapter W) → W → List (List MachineIdentity) → W → Type 0
Answer [] w [] w' = w ≡ w'
Answer [] w (view ∷ views) w' = ⊥
Answer (a ∷ cs) w [] w' = ⊥
Answer {W} (a ∷ cs) w (view ∷ views) w' =
    (next : W) × (a.discover w ≡ (ok view, next)) × Answer cs next views w'

-- Tests on the keys alone.
module _ (q : String → Bool) where
  abbrev by_key : MachineIdentity → Bool
  by_key v = q (identity_key v)

  filter_comm :
      (p : MachineIdentity → Bool) (xs : List MachineIdentity)
      → filter p (filter by_key xs) ≡ filter by_key (filter p xs)
  filter_comm p [] = refl
  filter_comm p (x ∷ xs) = ground (arith, filter_comm p xs)

  -- A key that fails the test need not be filtered out first.
  filter_absorb :
      (k : String) (xs : List MachineIdentity)
      → q k ≡ false
      → filter by_key (filter (λ u. not (k == identity_key u)) xs) ≡ filter by_key xs
  filter_absorb k [] h = refl
  filter_absorb k (x ∷ xs) h = elim (Bool-cases (k == identity_key x)) [
    | inl e ↦
        let dropped : q (identity_key x) ≡ false =
          ap q (sym ((eq_iff k (identity_key x)).0 e)) ∙ h in
        rw (e, dropped) (filter_absorb k xs h)
    | inr e ↦ ground (arith, filter_absorb k xs h)
  ]

  first_of_key-filter :
      (xs : List MachineIdentity)
      → first_of_key (filter by_key xs) ≡ filter by_key (first_of_key xs)
  first_of_key-filter [] = refl
  first_of_key-filter (x ∷ xs) = elim (Bool-cases (q (identity_key x))) [
    | inl e ↦
        rw (e, first_of_key-filter xs)
          (ap (λ r. x ∷ r)
            (filter_comm (λ u. not (identity_key x == identity_key u)) (first_of_key xs)))
    | inr e ↦
        rw e (first_of_key-filter xs ∙ sym (filter_absorb (identity_key x) (first_of_key xs) e))
  ]

abbrev unseen : List String → String → Bool
unseen seen k = not (seen_before k seen)

filter-unseen :
    (k : String) (seen : List String) (xs : List MachineIdentity)
    → filter (by_key (unseen (k ∷ seen))) xs
      ≡ filter (λ u. not (k == identity_key u)) (filter (by_key (unseen seen)) xs)
filter-unseen k seen [] = refl
filter-unseen k seen (x ∷ xs) = ground (arith, filter-unseen k seen xs)

merged :
    (vs : List MachineIdentity) (seen : List String) (found : List MachineIdentity)
    → (merge_view vs seen found).1 ≡ found ++ first_of_key (filter (by_key (unseen seen)) vs)
unfolding merge_view
merged [] seen found = sym (append-nil found)
merged (v ∷ vs) seen found = elim (Bool-cases (seen_before (identity_key v) seen)) [
  | inl e ↦ rw (e, merge_view) (merged vs seen found)
  | inr e ↦
      let rest =
        ap first_of_key (filter-unseen (identity_key v) seen vs)
        ∙ first_of_key-filter (λ j. not (identity_key v == j)) (filter (by_key (unseen seen)) vs) in
      rw (e, merge_view)
        (merged vs (identity_key v ∷ seen) (found ++ v ∷ [])
          ∙ ap (λ r. (found ++ v ∷ []) ++ r) rest
          ∙ append_assoc found (v ∷ []) (
              filter (λ u. not (identity_key v == identity_key u))
                (first_of_key (filter (by_key (unseen seen)) vs))))
]

merge-append :
    (us vs : List MachineIdentity) (st : List String × List MachineIdentity)
    → merge_view (us ++ vs) st.0 st.1
      ≡ merge_view vs (merge_view us st.0 st.1).0 (merge_view us st.0 st.1).1
unfolding merge_view
merge-append [] vs (seen, found) = refl
merge-append (u ∷ us) vs (seen, found) =
    let known = seen_before (identity_key u) seen in
    merge-append us vs
      ((if known then seen else identity_key u ∷ seen), (if known then found else found ++ u ∷ []))

discovered :
    {W : Type 0} (cs : List (CloudAdapter W)) (views : List (List MachineIdentity)) (w w' : W)
    (st : List String × List MachineIdentity)
    → Answer cs w views w'
    → discover_each cs st w ≡ (ok (merge_view (one_view views) st.0 st.1).1, w')
unfolding discover_each discover_view
discovered [] [] w w' st h = rw h refl
discovered [] (view ∷ views) w w' st h = absurd h
discovered (a ∷ cs) [] w w' st h = absurd h
discovered (a ∷ cs) (view ∷ views) w w' (seen, found) (next, answered, h) = rw answered (
    discovered cs views next w' (merge_view view seen found) h
    ∙ ap (λ (m : List String × List MachineIdentity). (ok m.1, w'))
        (sym (merge-append view (one_view views) (seen, found))))

-- When all adapters of a composite answer, one after the other, Discover returns of all their
-- views in order the first identity of each key, where the key is the provider and its id.
pub multi_discover_lem :
    {W : Type 0} (m : MultiProvider W) (views : List (List MachineIdentity)) (w w' : W)
    → Answer m.adapters w views w'
    → multi_discover m w ≡ (ok (first_of_key (one_view views)), w')
unfolding multi_discover
multi_discover_lem m views w w' h =
    discovered m.adapters views w w' ([], []) h
    ∙ ap (λ vs. (ok vs, w'))
        (merged (one_view views) [] [] ∙ ap first_of_key (all_unseen (one_view views)))
  where
    all_unseen : (xs : List MachineIdentity) → filter (by_key (unseen [])) xs ≡ xs
    all_unseen [] = refl
    all_unseen (x ∷ xs) = ap (λ r. x ∷ r) (all_unseen xs)
