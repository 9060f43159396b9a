-- ===== src/Provider/Multicloud/Routing.antt =====
-- The routing of a composite that its constructor accepted.
use mutandae.Prelude.{
  String, ◌≡◌, refl, ◌∙◌, ap, arith, true, false, Bool-cases, inl, inr, Option, none, some, List,
  [], ◌∷◌, ◌++◌, ◌==◌, string_eq, eq_iff, eq_refl, trim_space,
}
use mutandae.Protocol.{MachineIdentity}
use mutandae.Protocol.Errors.{Result, ok, err, ◌>>=◌}
use mutandae.Provider.Multicloud.{
  CloudAdapter, MultiProvider, check_kinds, new_multi_provider, nonempty, consed, find_adapter,
  adapter_for, vault_for, vault_in, seen_before, multi_rotate, multi_retire, multi_create,
  create_by, multi_consume_one_time_secret, consumed_by, governed, plan_identity,
  multi_plan_rotate_identity, multi_plan_retire_identity,
}

module _ {W : Type 0} where
  -- The trimmed kinds are neither blank nor seen before.
  abbrev Distinct : List String → List (CloudAdapter W) → Type 0
  Distinct seen [] = Unit
  Distinct seen (a ∷ cs) =
      (seen_before (trim_space a.kind) seen ≡ false) × Distinct (trim_space a.kind ∷ seen) cs

  check_kinds-Distinct :
      (cs : List (Option (CloudAdapter W))) (seen : List String) (ds : List (CloudAdapter W))
      → check_kinds cs seen ≡ ok ds
      → Distinct seen ds
  unfolding check_kinds
  check_kinds-Distinct [] seen [] h = tt
  check_kinds-Distinct [] seen (d ∷ ds) h = absurd (ground arith)
  check_kinds-Distinct (none ∷ cs) seen ds h = absurd (ground arith)
  check_kinds-Distinct (some a ∷ cs) seen ds h = elim (Bool-cases (trim_space a.kind == "")) [
    | inl e ↦ absurd (ground arith)
    | inr e ↦ elim (Bool-cases (seen_before (trim_space a.kind) seen)) [
      | inl old ↦ absurd (ground arith)
      | inr new ↦
          behind a new (check_kinds cs (trim_space a.kind ∷ seen)) ds
            (check_kinds-Distinct cs (trim_space a.kind ∷ seen)) (rw (e, new) at h)
    ]
  ]
    where
      behind :
          (a : CloudAdapter W) (new : seen_before (trim_space a.kind) seen ≡ false)
          (rest : Result (List (CloudAdapter W))) (ds : List (CloudAdapter W))
          → ((es : List (CloudAdapter W)) → rest ≡ ok es → Distinct (trim_space a.kind ∷ seen) es)
          → consed a rest ≡ ok ds
          → Distinct seen ds
      behind a new (ok es) ds ih h = let same : a ∷ es ≡ ds = cc in rw (← same) (new, ih es refl)
      behind a new (err e) ds ih h = absurd (ground arith)

  unseen :
      (before after : List (CloudAdapter W)) (a : CloudAdapter W) (seen : List String)
      → Distinct seen (before ++ a ∷ after)
      → seen_before (trim_space a.kind) seen ≡ false
  unseen [] after a seen h = h.0
  unseen (b ∷ before) after a seen h = tail (unseen before after a (trim_space b.kind ∷ seen) h.1)
    where
      tail :
          seen_before (trim_space a.kind) (trim_space b.kind ∷ seen) ≡ false
          → seen_before (trim_space a.kind) seen ≡ false
      tail k = ground arith

  found :
      (before after : List (CloudAdapter W)) (a : CloudAdapter W) (seen : List String)
      → Distinct seen (before ++ a ∷ after)
      → find_adapter a.kind (before ++ a ∷ after) ≡ some a
  unfolding find_adapter
  found [] after a seen h = rw (eq_refl a.kind) refl
  found (b ∷ before) after a seen h = elim (Bool-cases (b.kind == a.kind)) [
    | inl e ↦
        let same = ap trim_space ((eq_iff b.kind a.kind).0 e) in
        let fresh = unseen before after a (trim_space b.kind ∷ seen) h.1 in
        absurd (ground (arith, eq_iff (trim_space b.kind) (trim_space a.kind)))
    | inr e ↦ rw e (found before after a (trim_space b.kind ∷ seen) h.1)
  ]

  -- Every operation of the composite on the identity is that of the one adapter.
  pub record RoutesTo (m : MultiProvider W) (a : CloudAdapter W) (v : MachineIdentity)
      : Type 0 where
    pub rotates : (w : W) → multi_rotate m v w ≡ a.rotate v w
    pub retires : (w : W) → multi_retire m v w ≡ a.retire v w
    pub plans_rotation :
        (w : W)
        → multi_plan_rotate_identity m v w
          ≡ plan_identity a.plan_rotate_identity a.plan_rotate true v w
    pub plans_retirement :
        (w : W)
        → multi_plan_retire_identity m v w
          ≡ plan_identity a.plan_retire_identity a.plan_retire false v w
    pub creates : (name : String) (w : W) → multi_create m a.kind name w ≡ create_by a.create name w
    pub delivers : vault_for m v ≡ a.vault
    pub consumes : (w : W) → multi_consume_one_time_secret m a.kind w ≡ consumed_by (some a) w

  routed :
      (m : MultiProvider W) (a : CloudAdapter W) (v : MachineIdentity)
      → find_adapter a.kind m.adapters ≡ some a
      → trim_space a.kind ≡ a.kind
      → v.provider.provider ≡ a.kind
      → RoutesTo m a v
  unfolding multi_rotate multi_retire multi_plan_rotate_identity multi_plan_retire_identity
      multi_create vault_for multi_consume_one_time_secret
  routed m a v here trimmed bound = record {
    rotates = λ w. ap (λ o. governed v.provider.provider o (λ b. b.rotate v) w) (by_kind bound);
    retires = λ w. ap (λ o. governed v.provider.provider o (λ b. b.retire v) w) (by_kind bound);
    plans_rotation = λ w.
        ap
          (λ o.
            governed v.provider.provider o
              (λ b. plan_identity b.plan_rotate_identity b.plan_rotate true v) w)
          (by_kind bound);
    plans_retirement = λ w.
        ap
          (λ o.
            governed v.provider.provider o
              (λ b. plan_identity b.plan_retire_identity b.plan_retire false v) w)
          (by_kind bound);
    creates = λ name w. ap (λ o. governed a.kind o (λ b. create_by b.create name) w) (by_kind refl);
    delivers = ap (λ k. vault_in (find_adapter k m.adapters)) bound ∙ ap vault_in here;
    consumes = λ w. ap (λ o. consumed_by o w) here;
  }
    where
      by_kind : {kind : String} → kind ≡ a.kind → adapter_for m kind ≡ some a
      by_kind same =
          unfold adapter_for in
          ap (λ k. find_adapter k m.adapters) (ap trim_space same ∙ trimmed) ∙ here

  accepted :
      (r : Result (List (CloudAdapter W))) (m : MultiProvider W)
      → (r >>= nonempty) ≡ ok m
      → r ≡ ok m.adapters
  accepted (ok []) m h = absurd (ground arith)
  accepted (ok (a ∷ cs)) m h = ground arith
  accepted (err e) m h = absurd (ground arith)

  -- In a composite that its constructor accepted, for an adapter at any place whose kind has no
  -- space around it and an identity bound to that kind, each operation of the composite is that
  -- adapter's own: rotation, retirement, both plans of an identity, creation, the vault and the
  -- one-time secret.
  pub new_multi_provider_routes :
      (cs : List (Option (CloudAdapter W))) (m : MultiProvider W)
      (before after : List (CloudAdapter W)) (a : CloudAdapter W) (v : MachineIdentity)
      → new_multi_provider cs ≡ ok m
      → m.adapters ≡ before ++ a ∷ after
      → trim_space a.kind ≡ a.kind
      → v.provider.provider ≡ a.kind
      → RoutesTo m a v
  unfolding new_multi_provider
  new_multi_provider_routes cs m before after a v made spot trimmed bound =
      let distinct =
        check_kinds-Distinct cs [] (before ++ a ∷ after)
          (accepted (check_kinds cs []) m made ∙ ap ok spot) in
      routed m a v (ap (find_adapter a.kind) spot ∙ found before after a [] distinct) trimmed bound
