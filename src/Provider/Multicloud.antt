-- ===== src/Provider/Multicloud.antt =====
-- `MultiProvider` of internal/provider/multicloud.go, with its vaults of vault.go: several cloud
-- adapters behind the one adapter that the control plane is given.
pub mod Routing
pub mod Merged
use mutandae.Prelude.{
  String, Bool, true, false, Option, none, some, List, [], ◌∷◌, ◌++◌, any, map, ◌==◌, string_eq,
  if◌then◌else◌, ◌<>◌, trim_space, str_lt,
}
use mutandae.Protocol.{MachineIdentity, PlannedOperation, ProvisionResponse, VaultReference}
use mutandae.Protocol.Errors.{
  Error, Result, ok, err, plain, prefix, bare, vault_unsupported, create_unsupported, ◌>>=◌,
}
use mutandae.Protocol.Validation.{quote}
use mutandae.Lifecycle.Env.{Call, Vault, Adapter, identity_planner}
use mutandae.Lifecycle.Plans.{fallback_operations}
use mutandae.Lifecycle.Store.Snapshots.{sort}

-- A plan; a nil slice is `none`.
abbrev pub Planned : Type 0
Planned = Option (List PlannedOperation)

-- `CloudAdapter`, with the optional interfaces that the composite asks an adapter for.
pub record CloudAdapter (W : Type 0) : Type 0 where
  pub kind : String
  pub discover : Call W (List MachineIdentity)
  pub rotate : MachineIdentity → Call W MachineIdentity
  pub retire : MachineIdentity → Call W MachineIdentity
  pub plan_rotate : Option (String → Call W Planned)
  pub plan_retire : Option (String → Call W Planned)
  pub plan_rotate_identity : Option (MachineIdentity → Call W Planned)
  pub plan_retire_identity : Option (MachineIdentity → Call W Planned)
  pub create : Option (String → Call W ProvisionResponse)
  pub vault : Option (Vault W)
  pub consume_one_time_secret : Option (W → String × W)

pub record MultiProvider (W : Type 0) : Type 0 where
  pub adapters : List (CloudAdapter W)

abbrev pub raised : {W A : Type 0} → Error → Call W A
raised e w = (err e, w)

abbrev pub seen_before : String → List String → Bool
seen_before k = any (λ j. j == k)

abbrev consed :
    {W : Type 0} → CloudAdapter W → Result (List (CloudAdapter W)) → Result (List (CloudAdapter W))
consed a rest = rest >>= λ cs. ok (a ∷ cs)

-- The loop of `NewMultiProvider`; `none` is a nil adapter.
unfoldable pub check_kinds :
    {W : Type 0} → List (Option (CloudAdapter W)) → List String → Result (List (CloudAdapter W))
check_kinds [] seen = ok []
check_kinds (none ∷ cs) seen = err (plain "multi-cloud: a provider adapter is nil")
check_kinds (some a ∷ cs) seen =
    let kind = trim_space a.kind in
    let rest = check_kinds cs (kind ∷ seen) in
    if kind == ""
    then err (plain "multi-cloud: a provider adapter has an empty Kind")
    else if seen_before kind seen
    then err (plain ("multi-cloud: duplicate provider kind " <> quote kind))
    else consed a rest

abbrev nonempty : {W : Type 0} → List (CloudAdapter W) → Result (MultiProvider W)
nonempty [] = err (plain "multi-cloud: at least one provider adapter is required")
nonempty (a ∷ cs) = ok (record { adapters = a ∷ cs })

unfoldable pub new_multi_provider :
    {W : Type 0} → List (Option (CloudAdapter W)) → Result (MultiProvider W)
unfolding check_kinds
new_multi_provider cs = check_kinds cs [] >>= nonempty

abbrev pub identity_key : MachineIdentity → String
identity_key v = v.provider.provider <> "/" <> v.provider.provider_id

-- The inner loop of `Discover`: what is new in a view, behind what is there.
unfoldable pub merge_view :
    List MachineIdentity → List String → List MachineIdentity → List String × List MachineIdentity
merge_view [] seen found = (seen, found)
merge_view (v ∷ view) seen found =
    let known = seen_before (identity_key v) seen in
    merge_view view (if known then seen else identity_key v ∷ seen)
      (if known then found else found ++ v ∷ [])

-- `genericPlan`, which is the store's own plan.
abbrev generic_plan : String → Bool → Planned
generic_plan name rotate = some (fallback_operations name rotate)

module _ {W : Type 0} where
  discover_view :
      CloudAdapter W
      → (List String × List MachineIdentity → Call W (List MachineIdentity))
      → List String
      → List MachineIdentity
      → Result (List MachineIdentity) × W
      → Result (List MachineIdentity) × W
  unfolding merge_view
  discover_view a next seen found (err e, w) = (err (prefix (a.kind <> ": discover: ") e), w)
  discover_view a next seen found (ok view, w) = next (merge_view view seen found) w

  -- The outer loop.
  unfoldable pub discover_each :
      List (CloudAdapter W) → List String × List MachineIdentity → Call W (List MachineIdentity)
  unfolding discover_view
  discover_each [] (seen, found) w = (ok found, w)
  discover_each (a ∷ cs) (seen, found) w =
      discover_view a (discover_each cs) seen found (a.discover w)

  unfoldable pub find_adapter : String → List (CloudAdapter W) → Option (CloudAdapter W)
  find_adapter kind [] = none
  find_adapter kind (a ∷ cs) =
      let rest = find_adapter kind cs in if a.kind == kind then some a else rest

  -- `adapterFor`, with what the caller does then.
  abbrev pub governed :
      {A : Type 0} → String → Option (CloudAdapter W) → (CloudAdapter W → Call W A) → Call W A
  governed kind none act =
      raised (plain ("multi-cloud: no adapter governs provider " <> quote kind))
  governed kind (some a) act = act a

  settle_first : (Error → Call W Planned) → Result Planned × W → Result Planned × W
  settle_first next (ok operations, w) = (ok operations, w)
  settle_first next (err e, w) = next e w

  -- The loop of `PlanRotate` and `PlanRetire`: the first plan, or the last error.
  first_plan :
      List (Option (String → Call W Planned)) → Option Error → String → Bool → Call W Planned
  unfolding settle_first
  first_plan [] none id rotate w = (ok (generic_plan id rotate), w)
  first_plan [] (some e) id rotate w = (err e, w)
  first_plan (none ∷ ps) last id rotate w = first_plan ps last id rotate w
  first_plan (some p ∷ ps) last id rotate w =
      settle_first (λ e. first_plan ps (some e) id rotate) (p id w)

  -- A planner of the identity, or of its id, or the generic plan.
  unfoldable pub plan_identity :
      Option (MachineIdentity → Call W Planned)
      → Option (String → Call W Planned)
      → Bool
      → MachineIdentity
      → Call W Planned
  plan_identity (some p) q rotate v = p v
  plan_identity none (some q) rotate v =
      q (if v.provider.provider_id == "" then v.name else v.provider.provider_id)
  plan_identity none none rotate v = λ w. (ok (generic_plan v.name rotate), w)

  unfoldable pub create_by :
      Option (String → Call W ProvisionResponse) → String → Call W ProvisionResponse
  create_by none name = raised (bare create_unsupported)
  create_by (some create) name = create name

  abbrev pub through : {A : Type 0} → Option (Vault W) → (Vault W → Call W A) → Call W A
  through none act = raised (bare vault_unsupported)
  through (some v) act = act v

  vault_in : Option (CloudAdapter W) → Option (Vault W)
  vault_in none = none
  vault_in (some a) = a.vault

  unfoldable pub consumed_by : Option (CloudAdapter W) → W → String × W
  consumed_by none w = ("", w)
  consumed_by (some a) w = consume a.consume_one_time_secret
    where
      consume : Option (W → String × W) → String × W
      consume none = ("", w)
      consume (some c) = c w

  module _ (m : MultiProvider W) where
    -- `adapterFor`; `vaultFor` does not trim the kind.
    unfoldable pub adapter_for : String → Option (CloudAdapter W)
    unfolding find_adapter
    adapter_for kind = find_adapter (trim_space kind) m.adapters

    unfoldable pub vault_for : MachineIdentity → Option (Vault W)
    unfolding vault_in find_adapter
    vault_for v = vault_in (find_adapter v.provider.provider m.adapters)

    unfoldable pub kinds : List String
    kinds = sort str_lt (map (λ (a : CloudAdapter W). a.kind) m.adapters)

    unfoldable pub multi_discover : Call W (List MachineIdentity)
    multi_discover = discover_each m.adapters ([], [])

    unfoldable pub multi_rotate : MachineIdentity → Call W MachineIdentity
    multi_rotate v = governed v.provider.provider (adapter_for v.provider.provider) λ a. a.rotate v

    unfoldable pub multi_retire : MachineIdentity → Call W MachineIdentity
    multi_retire v = governed v.provider.provider (adapter_for v.provider.provider) λ a. a.retire v

    unfoldable pub multi_plan_rotate : String → Call W Planned
    unfolding first_plan
    multi_plan_rotate id =
        first_plan (map (λ (a : CloudAdapter W). a.plan_rotate) m.adapters) none id true

    unfoldable pub multi_plan_retire : String → Call W Planned
    unfolding first_plan
    multi_plan_retire id =
        first_plan (map (λ (a : CloudAdapter W). a.plan_retire) m.adapters) none id false

    unfoldable pub multi_plan_rotate_identity : MachineIdentity → Call W Planned
    multi_plan_rotate_identity v =
        governed v.provider.provider (adapter_for v.provider.provider)
          λ a. plan_identity a.plan_rotate_identity a.plan_rotate true v

    unfoldable pub multi_plan_retire_identity : MachineIdentity → Call W Planned
    multi_plan_retire_identity v =
        governed v.provider.provider (adapter_for v.provider.provider)
          λ a. plan_identity a.plan_retire_identity a.plan_retire false v

    unfoldable pub multi_create : String → String → Call W ProvisionResponse
    unfolding create_by
    multi_create kind name = governed kind (adapter_for kind) λ a. create_by a.create name

    unfoldable pub multi_vault : Vault W
    multi_vault = record {
      store_secret = λ v key secret. through (vault_for v) λ vault. vault.store_secret v key secret;
      read_secret = λ v key version. through (vault_for v) λ vault. vault.read_secret v key version;
      revoke_secret = λ v key. through (vault_for v) λ vault. vault.revoke_secret v key;
    }

    unfoldable pub multi_consume_one_time_secret : String → W → String × W
    unfolding consumed_by find_adapter
    multi_consume_one_time_secret kind = consumed_by (find_adapter kind m.adapters)

    -- What the control plane sees of the composite, by the interfaces that it implements.
    unfoldable pub as_adapter : Adapter W
    as_adapter = record {
      discover = multi_discover;
      rotate = multi_rotate;
      retire = multi_retire;
      planner = identity_planner multi_plan_rotate_identity multi_plan_retire_identity;
      create = some multi_create;
      vault = some multi_vault;
      consume_one_time_secret = some multi_consume_one_time_secret;
    }

-- The calls that an adapter gets, and runs of them.
pub data ProviderCall : Type 0 where
  discovers : ProviderCall
  rotates retires : MachineIdentity → ProviderCall

unfoldable pub provider_call : {W : Type 0} → CloudAdapter W → ProviderCall → W → W
provider_call a discovers w = (a.discover w).1
provider_call a (rotates v) w = (a.rotate v w).1
provider_call a (retires v) w = (a.retire v w).1

unfoldable pub provider_run : {W : Type 0} → CloudAdapter W → List ProviderCall → W → W
unfolding provider_call
provider_run a [] w = w
provider_run a (c ∷ calls) w = provider_run a calls (provider_call a c w)
