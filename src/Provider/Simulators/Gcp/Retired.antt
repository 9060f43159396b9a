-- ===== src/Provider/Simulators/Gcp/Retired.antt =====
-- Runs of the Gcp simulator.
use mutandae.Prelude.{
  ℕ, ◌+◌, String, ◌≡◌, ◌≢◌, refl, sym, ◌∙◌, ap, arith, Bool, true, false, not, ◌||◌, Bool-cases,
  inl, inr, Option, none, some, List, [], ◌∷◌, Dict, lookup, insert, All, All-insert, All-lookup,
  Keyed, Keyed-insert, All-insert_here,
}
use mathlib.Core.Path.{subst}
use mutandae.Protocol.{MachineIdentity}
use mutandae.Protocol.Errors.{Error, ok, err}
use mutandae.Provider.Scope.{scope_match, forbidden_scope_error}
use mutandae.Provider.Multicloud.{
  ProviderCall, discovers, rotates, retires, provider_call, provider_run,
}
use mutandae.Provider.Simulators.{unknown_id, cannot_rotate}
use mutandae.Provider.Simulators.Gcp.Plans.{gcp_adapter}
use mutandae.Provider.Simulators.Gcp.{
  ServiceAccount, GcpSimulator, gcp_kind, gcp_name, gcp_identity, gcp_enabled, gcp_discover,
  gcp_put, gcp_renewed, gcp_rotate_enabled, gcp_rotate_found, gcp_rotate, gcp_retire_found,
  gcp_retire,
}

-- One entry for an id, stored under it.
pub record Sound (s : GcpSimulator) : Type 0 where
  pub keyed : Keyed s.accounts
  pub own : All (λ e. e.1.unique_id ≡ e.0) s.accounts

-- Nothing enabled is stored under this id.
abbrev Down : String → GcpSimulator → Type 0
Down id s = All (λ e. e.0 ≡ id → e.1.disabled ≡ true) s.accounts

record Stays (id : String) (s : GcpSimulator) : Type 0 where
  sound : Sound s
  down : Down id s

Sound-put :
    (s : GcpSimulator) (seq : ℕ) (acct : ServiceAccount)
    → Sound s
    → Sound (gcp_put acct (record s { seq = seq }))
Sound-put s seq acct inv = record {
  keyed = Keyed-insert acct.unique_id acct s.accounts inv.keyed;
  own = All-insert (λ j u. u.unique_id ≡ j) acct.unique_id acct s.accounts refl inv.own;
}

-- A write of what was found, under its own id, that does not enable it.
Stays-put :
    (id : String) (s : GcpSimulator) (seq : ℕ) (k : String) (acct acct' : ServiceAccount)
    → Stays id s
    → lookup k s.accounts ≡ some acct
    → acct'.unique_id ≡ acct.unique_id
    → (acct.disabled ≡ true → acct'.disabled ≡ true)
    → Stays id (gcp_put acct' (record s { seq = seq }))
Stays-put id s seq k acct acct' inv found same keep = record {
  sound = Sound-put s seq acct' inv.sound;
  down =
      let own = All-lookup (λ j u. u.unique_id ≡ j) k acct s.accounts inv.sound.own found in
      let was = All-lookup (λ j u. j ≡ id → u.disabled ≡ true) k acct s.accounts inv.down found in
      All-insert (λ j u. j ≡ id → u.disabled ≡ true) acct'.unique_id acct' s.accounts
        (λ here. keep (was (sym own ∙ sym same ∙ here))) inv.down;
}

Stays-rotate_enabled :
    (id : String) (s : GcpSimulator) (k : String) (acct : ServiceAccount) (off : Bool)
    → Stays id s
    → lookup k s.accounts ≡ some acct
    → Stays id (gcp_rotate_enabled s acct off).1
unfolding gcp_rotate_enabled gcp_renewed
Stays-rotate_enabled id s k acct true inv found = inv
Stays-rotate_enabled id s k acct false inv found =
    Stays-put id s (s.seq + 1) k acct (gcp_renewed s acct (s.seq + 1)) inv found refl (λ d. d)

Stays-rotate_found :
    (id : String) (s : GcpSimulator) (k : String) (o : Option ServiceAccount)
    → Stays id s
    → lookup k s.accounts ≡ o
    → Stays id (gcp_rotate_found s k o).1
unfolding gcp_rotate_found
Stays-rotate_found id s k none inv found = inv
Stays-rotate_found id s k (some acct) inv found =
    elim (Bool-cases (scope_match s.scope acct.email)) [
      | inl e ↦ rw e (Stays-rotate_enabled id s k acct acct.disabled inv found)
      | inr e ↦ rw e inv
    ]

Stays-rotate :
    (id : String) (v : MachineIdentity) (s : GcpSimulator)
    → Stays id s
    → Stays id (gcp_rotate v s).1
unfolding gcp_rotate
Stays-rotate id v s inv = elim (Bool-cases (scope_match s.scope (gcp_name v))) [
  | inl e ↦
      let k = v.provider.provider_id in
      rw e (Stays-rotate_found id s k (lookup k s.accounts) inv refl)
  | inr e ↦ rw e inv
]

Stays-retire_found :
    (id : String) (s : GcpSimulator) (k : String) (o : Option ServiceAccount)
    → Stays id s
    → lookup k s.accounts ≡ o
    → Stays id (gcp_retire_found s k o).1
unfolding gcp_retire_found
Stays-retire_found id s k none inv found = inv
Stays-retire_found id s k (some acct) inv found =
    elim (Bool-cases (scope_match s.scope acct.email)) [
      | inl e ↦
          rw e (
            Stays-put id s s.seq k acct (record acct { disabled = true }) inv found refl
              (λ d. refl))
      | inr e ↦ rw e inv
    ]

Stays-retire :
    (id : String) (v : MachineIdentity) (s : GcpSimulator)
    → Stays id s
    → Stays id (gcp_retire v s).1
unfolding gcp_retire
Stays-retire id v s inv = elim (Bool-cases (scope_match s.scope (gcp_name v))) [
  | inl e ↦
      let k = v.provider.provider_id in
      rw e (Stays-retire_found id s k (lookup k s.accounts) inv refl)
  | inr e ↦ rw e inv
]

Stays-run :
    (id : String) (calls : List ProviderCall) (s : GcpSimulator)
    → Stays id s
    → Stays id (provider_run gcp_adapter calls s)
unfolding provider_run provider_call gcp_adapter gcp_discover
Stays-run id [] s inv = inv
Stays-run id (discovers ∷ calls) s inv = Stays-run id calls s inv
Stays-run id (rotates v ∷ calls) s inv =
    Stays-run id calls (gcp_rotate v s).1 (Stays-rotate id v s inv)
Stays-run id (retires v ∷ calls) s inv =
    Stays-run id calls (gcp_retire v s).1 (Stays-retire id v s inv)

-- A rotation under the id fails and changes nothing, and the id is not discovered.
pub record Gone (id : String) (s : GcpSimulator) : Type 0 where
  pub refused :
      (v : MachineIdentity)
      → v.provider.provider_id ≡ id
      → (e : Error) × (gcp_rotate v s ≡ (err e, s))
  pub hidden : All (λ v. v.provider.provider_id ≢ id) (gcp_enabled s s.accounts)

found_of-Down :
    (s : GcpSimulator) (k : String) (o : Option ServiceAccount)
    → Down k s
    → lookup k s.accounts ≡ o
    → (e : Error) × (gcp_rotate_found s k o ≡ (err e, s))
unfolding gcp_rotate_found gcp_rotate_enabled
found_of-Down s k none down found = (unknown_id gcp_kind k, refl)
found_of-Down s k (some acct) down found =
    let off = All-lookup (λ j u. j ≡ k → u.disabled ≡ true) k acct s.accounts down found refl in
    elim (Bool-cases (scope_match s.scope acct.email)) [
      | inl e ↦ (cannot_rotate gcp_kind acct.name, rw e (ap (gcp_rotate_enabled s acct) off))
      | inr e ↦ (forbidden_scope_error gcp_kind acct.email s.scope, rw e refl)
    ]

rotate_of-Down :
    (v : MachineIdentity) (s : GcpSimulator)
    → Down v.provider.provider_id s
    → (e : Error) × (gcp_rotate v s ≡ (err e, s))
unfolding gcp_rotate
rotate_of-Down v s down = elim (Bool-cases (scope_match s.scope (gcp_name v))) [
  | inl e ↦
      let k = v.provider.provider_id in
      let ended = found_of-Down s k (lookup k s.accounts) down refl in (ended.0, rw e ended.1)
  | inr e ↦ (forbidden_scope_error gcp_kind (gcp_name v) s.scope, rw e refl)
]

hidden_of-Down :
    (id : String) (s : GcpSimulator) (accounts : Dict ServiceAccount)
    → All (λ e. e.1.unique_id ≡ e.0) accounts
    → All (λ e. e.0 ≡ id → e.1.disabled ≡ true) accounts
    → All (λ v. v.provider.provider_id ≢ id) (gcp_enabled s accounts)
unfolding gcp_enabled gcp_identity
hidden_of-Down id s [] own down = tt
hidden_of-Down id s ((k, acct) ∷ accounts) (same, own) (here, down) =
    elim (Bool-cases (acct.disabled || not (scope_match s.scope acct.email))) [
      | inl e ↦ rw (e, gcp_enabled) (hidden_of-Down id s accounts own down)
      | inr e ↦
          let shown : acct.unique_id ≢ id = λ it. absurd (ground (arith, here (sym same ∙ it))) in
          rw (e, gcp_enabled) (shown, hidden_of-Down id s accounts own down)
    ]

found_retired :
    (s : GcpSimulator) (k : String) (o : Option ServiceAccount) (seen : MachineIdentity)
    → Sound s
    → lookup k s.accounts ≡ o
    → (gcp_retire_found s k o).0 ≡ ok seen
    → Stays k (gcp_retire_found s k o).1
unfolding gcp_retire_found
found_retired s k none seen sound found h = absurd (ground arith)
found_retired s k (some acct) seen sound found h =
    elim (Bool-cases (scope_match s.scope acct.email)) [
      | inl e ↦
          let own = All-lookup (λ j u. u.unique_id ≡ j) k acct s.accounts sound.own found in
          let acct' = record acct { disabled = true } in
          rw e (record {
            sound = Sound-put s s.seq acct' sound;
            down =
                subst
                  (λ n.
                    All (λ e. e.0 ≡ n → e.1.disabled ≡ true)
                      (insert acct.unique_id acct' s.accounts))
                  own
                  (All-insert_here (λ u. u.disabled ≡ true) acct.unique_id acct' s.accounts refl
                    sound.keyed);
          })
      | inr e ↦ absurd (ground arith)
    ]

Stays-retired :
    (v : MachineIdentity) (s : GcpSimulator) (seen : MachineIdentity)
    → Sound s
    → (gcp_retire v s).0 ≡ ok seen
    → Stays v.provider.provider_id (gcp_retire v s).1
unfolding gcp_retire
Stays-retired v s seen sound h = elim (Bool-cases (scope_match s.scope (gcp_name v))) [
  | inl e ↦
      let k = v.provider.provider_id in
      rw e (found_retired s k (lookup k s.accounts) seen sound refl (rw e at h))
  | inr e ↦ absurd (ground arith)
]

pub gcp_retired_lem :
    (v : MachineIdentity) (s : GcpSimulator) (seen : MachineIdentity) (calls : List ProviderCall)
    → Sound s
    → (gcp_retire v s).0 ≡ ok seen
    → Gone v.provider.provider_id (provider_run gcp_adapter calls (gcp_retire v s).1)
gcp_retired_lem v s seen calls sound done =
    let id = v.provider.provider_id in
    let stays = Stays-run id calls (gcp_retire v s).1 (Stays-retired v s seen sound done) in
    record {
      refused = λ u same. rotate_of-Down u _ (rw same stays.down);
      hidden = hidden_of-Down id _ _ stays.sound.own stays.down;
    }
