-- ===== src/Provider/Simulators/Azure/Retired.antt =====
-- Runs of the Azure simulator.
use mutandae.Prelude.{
  ℕ, ◌+◌, String, ◌≡◌, ◌≢◌, refl, sym, ◌∙◌, ap, arith, Bool, true, false, not, ◌||◌, Bool-cases,
  inl, inr, Option, none, some, List, [], ◌∷◌, Dict, lookup, insert, All, All-insert, All-lookup,
  Keyed, Keyed-insert, All-insert_here,
}
use mathlib.Core.Path.{subst}
use mutandae.Protocol.{MachineIdentity}
use mutandae.Protocol.Errors.{Error, ok, err}
use mutandae.Provider.Scope.{scope_match, forbidden_scope_error}
use mutandae.Provider.Multicloud.{
  ProviderCall, discovers, rotates, retires, provider_call, provider_run,
}
use mutandae.Provider.Simulators.{unknown_id, cannot_rotate}
use mutandae.Provider.Simulators.Azure.Plans.{azure_adapter}
use mutandae.Provider.Simulators.Azure.{
  AppRegistration, AzureSimulator, azure_kind, azure_name, azure_identity, azure_enabled,
  azure_discover, azure_put, azure_renewed, azure_rotate_enabled, azure_rotate_found, azure_rotate,
  azure_retire_found, azure_retire,
}

-- One entry for an id, stored under it.
pub record Sound (s : AzureSimulator) : Type 0 where
  pub keyed : Keyed s.apps
  pub own : All (λ e. e.1.object_id ≡ e.0) s.apps

-- Nothing enabled is stored under this id.
abbrev Down : String → AzureSimulator → Type 0
Down id s = All (λ e. e.0 ≡ id → e.1.disabled ≡ true) s.apps

record Stays (id : String) (s : AzureSimulator) : Type 0 where
  sound : Sound s
  down : Down id s

Sound-put :
    (s : AzureSimulator) (seq : ℕ) (app : AppRegistration)
    → Sound s
    → Sound (azure_put app (record s { seq = seq }))
Sound-put s seq app inv = record {
  keyed = Keyed-insert app.object_id app s.apps inv.keyed;
  own = All-insert (λ j u. u.object_id ≡ j) app.object_id app s.apps refl inv.own;
}

-- A write of what was found, under its own id, that does not enable it.
Stays-put :
    (id : String) (s : AzureSimulator) (seq : ℕ) (k : String) (app app' : AppRegistration)
    → Stays id s
    → lookup k s.apps ≡ some app
    → app'.object_id ≡ app.object_id
    → (app.disabled ≡ true → app'.disabled ≡ true)
    → Stays id (azure_put app' (record s { seq = seq }))
Stays-put id s seq k app app' inv found same keep = record {
  sound = Sound-put s seq app' inv.sound;
  down =
      let own = All-lookup (λ j u. u.object_id ≡ j) k app s.apps inv.sound.own found in
      let was = All-lookup (λ j u. j ≡ id → u.disabled ≡ true) k app s.apps inv.down found in
      All-insert (λ j u. j ≡ id → u.disabled ≡ true) app'.object_id app' s.apps
        (λ here. keep (was (sym own ∙ sym same ∙ here))) inv.down;
}

Stays-rotate_enabled :
    (id : String) (s : AzureSimulator) (k : String) (app : AppRegistration) (off : Bool)
    → Stays id s
    → lookup k s.apps ≡ some app
    → Stays id (azure_rotate_enabled s app off).1
unfolding azure_rotate_enabled azure_renewed
Stays-rotate_enabled id s k app true inv found = inv
Stays-rotate_enabled id s k app false inv found =
    Stays-put id s (s.seq + 1) k app (azure_renewed s app (s.seq + 1)) inv found refl (λ d. d)

Stays-rotate_found :
    (id : String) (s : AzureSimulator) (k : String) (o : Option AppRegistration)
    → Stays id s
    → lookup k s.apps ≡ o
    → Stays id (azure_rotate_found s k o).1
unfolding azure_rotate_found
Stays-rotate_found id s k none inv found = inv
Stays-rotate_found id s k (some app) inv found =
    elim (Bool-cases (scope_match s.scope app.display_name)) [
      | inl e ↦ rw e (Stays-rotate_enabled id s k app app.disabled inv found)
      | inr e ↦ rw e inv
    ]

Stays-rotate :
    (id : String) (v : MachineIdentity) (s : AzureSimulator)
    → Stays id s
    → Stays id (azure_rotate v s).1
unfolding azure_rotate
Stays-rotate id v s inv = elim (Bool-cases (scope_match s.scope (azure_name v))) [
  | inl e ↦
      let k = v.provider.provider_id in rw e (Stays-rotate_found id s k (lookup k s.apps) inv refl)
  | inr e ↦ rw e inv
]

Stays-retire_found :
    (id : String) (s : AzureSimulator) (k : String) (o : Option AppRegistration)
    → Stays id s
    → lookup k s.apps ≡ o
    → Stays id (azure_retire_found s k o).1
unfolding azure_retire_found
Stays-retire_found id s k none inv found = inv
Stays-retire_found id s k (some app) inv found =
    elim (Bool-cases (scope_match s.scope app.display_name)) [
      | inl e ↦
          rw e
            (Stays-put id s s.seq k app (record app { disabled = true }) inv found refl (λ d. refl))
      | inr e ↦ rw e inv
    ]

Stays-retire :
    (id : String) (v : MachineIdentity) (s : AzureSimulator)
    → Stays id s
    → Stays id (azure_retire v s).1
unfolding azure_retire
Stays-retire id v s inv = elim (Bool-cases (scope_match s.scope (azure_name v))) [
  | inl e ↦
      let k = v.provider.provider_id in rw e (Stays-retire_found id s k (lookup k s.apps) inv refl)
  | inr e ↦ rw e inv
]

Stays-run :
    (id : String) (calls : List ProviderCall) (s : AzureSimulator)
    → Stays id s
    → Stays id (provider_run azure_adapter calls s)
unfolding provider_run provider_call azure_adapter azure_discover
Stays-run id [] s inv = inv
Stays-run id (discovers ∷ calls) s inv = Stays-run id calls s inv
Stays-run id (rotates v ∷ calls) s inv =
    Stays-run id calls (azure_rotate v s).1 (Stays-rotate id v s inv)
Stays-run id (retires v ∷ calls) s inv =
    Stays-run id calls (azure_retire v s).1 (Stays-retire id v s inv)

-- A rotation under the id fails and changes nothing, and the id is not discovered.
pub record Gone (id : String) (s : AzureSimulator) : Type 0 where
  pub refused :
      (v : MachineIdentity)
      → v.provider.provider_id ≡ id
      → (e : Error) × (azure_rotate v s ≡ (err e, s))
  pub hidden : All (λ v. v.provider.provider_id ≢ id) (azure_enabled s s.apps)

found_of-Down :
    (s : AzureSimulator) (k : String) (o : Option AppRegistration)
    → Down k s
    → lookup k s.apps ≡ o
    → (e : Error) × (azure_rotate_found s k o ≡ (err e, s))
unfolding azure_rotate_found azure_rotate_enabled
found_of-Down s k none down found = (unknown_id azure_kind k, refl)
found_of-Down s k (some app) down found =
    let off = All-lookup (λ j u. j ≡ k → u.disabled ≡ true) k app s.apps down found refl in
    elim (Bool-cases (scope_match s.scope app.display_name)) [
      | inl e ↦ (cannot_rotate azure_kind app.name, rw e (ap (azure_rotate_enabled s app) off))
      | inr e ↦ (forbidden_scope_error azure_kind app.display_name s.scope, rw e refl)
    ]

rotate_of-Down :
    (v : MachineIdentity) (s : AzureSimulator)
    → Down v.provider.provider_id s
    → (e : Error) × (azure_rotate v s ≡ (err e, s))
unfolding azure_rotate
rotate_of-Down v s down = elim (Bool-cases (scope_match s.scope (azure_name v))) [
  | inl e ↦
      let k = v.provider.provider_id in
      let ended = found_of-Down s k (lookup k s.apps) down refl in (ended.0, rw e ended.1)
  | inr e ↦ (forbidden_scope_error azure_kind (azure_name v) s.scope, rw e refl)
]

hidden_of-Down :
    (id : String) (s : AzureSimulator) (apps : Dict AppRegistration)
    → All (λ e. e.1.object_id ≡ e.0) apps
    → All (λ e. e.0 ≡ id → e.1.disabled ≡ true) apps
    → All (λ v. v.provider.provider_id ≢ id) (azure_enabled s apps)
unfolding azure_enabled azure_identity
hidden_of-Down id s [] own down = tt
hidden_of-Down id s ((k, app) ∷ apps) (same, own) (here, down) =
    elim (Bool-cases (app.disabled || not (scope_match s.scope app.display_name))) [
      | inl e ↦ rw (e, azure_enabled) (hidden_of-Down id s apps own down)
      | inr e ↦
          let shown : app.object_id ≢ id = λ it. absurd (ground (arith, here (sym same ∙ it))) in
          rw (e, azure_enabled) (shown, hidden_of-Down id s apps own down)
    ]

found_retired :
    (s : AzureSimulator) (k : String) (o : Option AppRegistration) (seen : MachineIdentity)
    → Sound s
    → lookup k s.apps ≡ o
    → (azure_retire_found s k o).0 ≡ ok seen
    → Stays k (azure_retire_found s k o).1
unfolding azure_retire_found
found_retired s k none seen sound found h = absurd (ground arith)
found_retired s k (some app) seen sound found h =
    elim (Bool-cases (scope_match s.scope app.display_name)) [
      | inl e ↦
          let own = All-lookup (λ j u. u.object_id ≡ j) k app s.apps sound.own found in
          let app' = record app { disabled = true } in
          rw e (record {
            sound = Sound-put s s.seq app' sound;
            down =
                subst
                  (λ n. All (λ e. e.0 ≡ n → e.1.disabled ≡ true) (insert app.object_id app' s.apps))
                  own
                  (All-insert_here (λ u. u.disabled ≡ true) app.object_id app' s.apps refl
                    sound.keyed);
          })
      | inr e ↦ absurd (ground arith)
    ]

Stays-retired :
    (v : MachineIdentity) (s : AzureSimulator) (seen : MachineIdentity)
    → Sound s
    → (azure_retire v s).0 ≡ ok seen
    → Stays v.provider.provider_id (azure_retire v s).1
unfolding azure_retire
Stays-retired v s seen sound h = elim (Bool-cases (scope_match s.scope (azure_name v))) [
  | inl e ↦
      let k = v.provider.provider_id in
      rw e (found_retired s k (lookup k s.apps) seen sound refl (rw e at h))
  | inr e ↦ absurd (ground arith)
]

-- In a simulated tenant with one application for an object id, stored under it, once a retirement
-- has succeeded, and after any further discoveries, rotations and retirements, each rotation
-- under that id fails and changes nothing, and no discovered identity has it.
pub azure_retired_lem :
    (v : MachineIdentity) (s : AzureSimulator) (seen : MachineIdentity) (calls : List ProviderCall)
    → Sound s
    → (azure_retire v s).0 ≡ ok seen
    → Gone v.provider.provider_id (provider_run azure_adapter calls (azure_retire v s).1)
azure_retired_lem v s seen calls sound done =
    let id = v.provider.provider_id in
    let stays = Stays-run id calls (azure_retire v s).1 (Stays-retired v s seen sound done) in
    record {
      refused = λ u same. rotate_of-Down u _ (rw same stays.down);
      hidden = hidden_of-Down id _ _ stays.sound.own stays.down;
    }
