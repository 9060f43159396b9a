-- ===== src/Lifecycle/Queries/Order.antt =====
-- The order of what the readers return.
use mathlib.Core.List.{Permᴰ}
use mathlib.Core.List.Permᴰ.{refl as perm_refl}
use mathlib.Core.Path.{subst}
use mutandae.Prelude.{
  String, ◌≡◌, ◌<◌, ◌⊎◌, sym, ap, not, ltb, ◌==◌, nat_beq_iff, Option-cases, none, refl, Bool, true,
  false, inl, inr, Bool-cases, List, [], ◌∷◌, arith, str_lt, nat_eq, filter, values, lookup, some,
}
use mutandae.Protocol.{MachineIdentity, LifecycleEvent, retired, state_eq}
use mutandae.Lifecycle.Queries.{list, listed, events, events_known, expires_before, event_after}
use mutandae.Lifecycle.Store.{events_of}
use mutandae.Lifecycle.Store.Monad.{Store}
use mutandae.Lifecycle.Store.Snapshots.{insert_sorted, sort}

module _ {A : Type 0} (less : A → A → Bool) where
  -- No element stands right behind one that it must precede.
  abbrev pub Ordered : List A → Type 0
  Ordered [] = Unit
  Ordered (x ∷ []) = Unit
  Ordered (x ∷ y ∷ ys) = (less y x ≡ false) × Ordered (y ∷ ys)

  abbrev pub Strict : Type 0
  Strict = (x y : A) → less x y ≡ true → less y x ≡ false

  module _ (strict : Strict) where
    insert_sorted_behind :
        (y x : A) (ys : List A)
        → less x y ≡ false
        → Ordered (y ∷ ys)
        → Ordered (y ∷ insert_sorted less x ys)
    unfolding insert_sorted
    insert_sorted_behind y x [] p h = (p, tt)
    insert_sorted_behind y x (z ∷ zs) p (q, h) = elim (Bool-cases (less z x)) [
      | inl e ↦ rw e (q, insert_sorted_behind z x zs (strict z x e) h)
      | inr e ↦ rw e (p, (e, h))
    ]

    Ordered-insert_sorted : (x : A) (ys : List A) → Ordered ys → Ordered (insert_sorted less x ys)
    unfolding insert_sorted
    Ordered-insert_sorted x [] h = tt
    Ordered-insert_sorted x (y ∷ ys) h = elim (Bool-cases (less y x)) [
      | inl e ↦ rw e (insert_sorted_behind y x ys (strict y x e) h)
      | inr e ↦ rw e (e, h)
    ]

    pub Ordered-sort : (xs : List A) → Ordered (sort less xs)
    unfolding sort
    Ordered-sort [] = tt
    Ordered-sort (x ∷ xs) = Ordered-insert_sorted x (sort less xs) (Ordered-sort xs)

  Permᴰ-insert_sorted : (x : A) (ys : List A) → Permᴰ (insert_sorted less x ys) (x ∷ ys)
  unfolding insert_sorted
  Permᴰ-insert_sorted x [] = perm_refl _
  Permᴰ-insert_sorted x (y ∷ ys) = elim (Bool-cases (less y x)) [
    | inl e ↦ rw e (Permᴰ.trans (Permᴰ.cons refl (Permᴰ-insert_sorted x ys)) (Permᴰ.swap refl refl))
    | inr e ↦ rw e (perm_refl _)
  ]

  pub Permᴰ-sort : (xs : List A) → Permᴰ (sort less xs) xs
  unfolding sort
  Permᴰ-sort [] = Permᴰ.nil
  Permᴰ-sort (x ∷ xs) =
      Permᴰ.trans (Permᴰ-insert_sorted x (sort less xs)) (Permᴰ.cons refl (Permᴰ-sort xs))

str_lt-Strict : Strict str_lt
unfolding str_lt
str_lt-Strict String.[] t h = ground arith
str_lt-Strict (String.◌∷◌ c s) String.[] h = ground arith
str_lt-Strict (String.◌∷◌ c s) (String.◌∷◌ d t) h = ground (arith, str_lt-Strict s t)

expires_before-Strict : Strict expires_before
expires_before-Strict a b h = ground (arith, str_lt-Strict a.name b.name)

event_after-Strict : Strict event_after
event_after-Strict a b h = ground (arith, str_lt-Strict b.id a.id)

-- Each element precedes, or is level with, the one behind it.
abbrev pub Sorted : {A : Type 0} → (A → A → Type 0) → List A → Type 0
Sorted R [] = Unit
Sorted R (x ∷ []) = Unit
Sorted R (x ∷ y ∷ ys) = R x y × Sorted R (y ∷ ys)

-- The first one expires earlier, or both at once and its name does not come behind the other's.
pub data Sooner (a b : MachineIdentity) : Type 0 where
  earlier : a.expires_at < b.expires_at → Sooner a b
  at_once : a.expires_at ≡ b.expires_at → str_lt b.name a.name ≡ false → Sooner a b

-- The first one is newer, or both are of one time and its id does not come before the other's.
pub data Newer (a b : LifecycleEvent) : Type 0 where
  newer : b.at < a.at → Newer a b
  of_one_time : a.at ≡ b.at → str_lt a.id b.id ≡ false → Newer a b

Sorted-Ordered :
    {A : Type 0} (less : A → A → Bool) (R : A → A → Type 0)
    → ((x y : A) → less y x ≡ false → R x y)
    → (xs : List A) → Ordered less xs
    → Sorted R xs
Sorted-Ordered less R f [] h = tt
Sorted-Ordered less R f (x ∷ []) h = tt
Sorted-Ordered less R f (x ∷ y ∷ ys) (p, h) = (f x y p, Sorted-Ordered less R f (y ∷ ys) h)

expires_before-Sooner : (a b : MachineIdentity) → expires_before b a ≡ false → Sooner a b
expires_before-Sooner a b h = elim (Bool-cases (b.expires_at == a.expires_at)) [
  | inl e ↦ at_once (sym ((nat_beq_iff b.expires_at a.expires_at).0 e)) (cc (h, e))
  | inr e ↦
      let ends : ltb b.expires_at a.expires_at ≡ false = cc (h, e) in
      earlier (ground (arith, e, ends))
]

event_after-Newer : (a b : LifecycleEvent) → event_after b a ≡ false → Newer a b
event_after-Newer a b h = elim (Bool-cases (b.at == a.at)) [
  | inl e ↦ of_one_time (sym ((nat_beq_iff b.at a.at).0 e)) (cc (h, e))
  | inr e ↦ let ends : ltb a.at b.at ≡ false = cc (h, e) in newer (ground (arith, e, ends))
]

-- List is a permutation of the stored identities that are not retired, and ListIncludingRetired
-- one of all stored ones; in both, of each two neighbours the first expires earlier, or both
-- expire at once and its name does not come behind the other's.
pub list_lem :
    (st : Store)
    → Sorted Sooner (list false st)
      × Permᴰ (list false st) (filter (λ v. not (v.state == retired)) (values st.identities))
      × Sorted Sooner (list true st)
      × Permᴰ (list true st) (values st.identities)
unfolding list
list_lem st =
    let now = values st.identities in
    let kept = filter (listed false) now in
    let all = filter (listed true) now in
    (
      Sorted-Ordered expires_before Sooner expires_before-Sooner _
          (Ordered-sort expires_before expires_before-Strict kept),
      Permᴰ-sort expires_before kept,
      Sorted-Ordered expires_before Sooner expires_before-Sooner _
          (Ordered-sort expires_before expires_before-Strict all),
      subst (Permᴰ (sort expires_before all)) (filter_all now) (Permᴰ-sort expires_before all),
    )
  where
    filter_all : (vs : List MachineIdentity) → filter (listed true) vs ≡ vs
    filter_all [] = refl
    filter_all (v ∷ vs) = ap (λ r. v ∷ r) (filter_all vs)

-- The events of an id that has a record are a permutation of its trail, in which of each two
-- neighbours the first is newer, or both are of one time and its id does not come before the
-- other's as a text; of an id without a record none are shown.
pub events_lem :
    (id : String) (st : Store)
    → ((lookup id st.identities ≡ none) × (events id st ≡ none))
      ⊎ ((es : List LifecycleEvent) × (events id st ≡ some es)
          × Sorted Newer es
          × Permᴰ es (events_of id st))
unfolding events events_known
events_lem id st = elim (Option-cases (lookup id st.identities)) [
  | inl missing ↦ inl (missing, rw missing refl)
  | inr (v, found) ↦ inr (
    sort event_after (events_of id st),
    rw found refl,
    Sorted-Ordered event_after Newer event_after-Newer _
        (Ordered-sort event_after event_after-Strict (events_of id st)),
    Permᴰ-sort event_after (events_of id st),
  )
]
