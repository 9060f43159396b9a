-- ===== src/Provider/Simulators/Aws/Retired.antt =====
-- Runs of the AWS simulator.
use mutandae.Prelude.{
  ℕ, ◌+◌, String, ◌≡◌, ◌≢◌, refl, sym, ◌∙◌, ap, arith, Bool, true, false, not, ◌||◌, Bool-cases,
  inl, inr, Option, none, some, List, [], ◌∷◌, Dict, lookup, insert, All, All-insert, All-lookup,
  Keyed, Keyed-insert, All-insert_here, string_eq,
}
use mathlib.Core.Path.{subst}
use mutandae.Protocol.{MachineIdentity}
use mutandae.Protocol.Errors.{Error, ok, err}
use mutandae.Provider.Scope.{scope_match, forbidden_scope_error}
use mutandae.Provider.Multicloud.{
  ProviderCall, discovers, rotates, retires, provider_call, provider_run,
}
use mutandae.Provider.Simulators.{unknown_id, cannot_rotate}
use mutandae.Provider.Simulators.Aws.Plans.{aws_adapter}
use mutandae.Provider.Simulators.Aws.{
  IamUser, AwsSimulator, aws_identity, aws_enabled, aws_discover, aws_renewed, aws_rotate_enabled,
  aws_rotate_user, aws_name, aws_rotate, aws_retire_user, aws_retire, aws_put, aws_kind,
}

-- One user for a name, stored under it.
pub record Sound (s : AwsSimulator) : Type 0 where
  pub keyed : Keyed s.users
  pub named : All (λ e. e.1.name ≡ e.0) s.users

-- No enabled user is stored under this name.
abbrev pub Down : String → AwsSimulator → Type 0
Down name s = All (λ e. e.0 ≡ name → e.1.disabled ≡ true) s.users

record Stays (name : String) (s : AwsSimulator) : Type 0 where
  sound : Sound s
  down : Down name s

Sound-put :
    (s : AwsSimulator) (seq : ℕ) (user : IamUser)
    → Sound s
    → Sound (aws_put user (record s { seq = seq }))
Sound-put s seq user inv = record {
  keyed = Keyed-insert user.name user s.users inv.keyed;
  named = All-insert (λ j u. u.name ≡ j) user.name user s.users refl inv.named;
}

-- A write of a found user under its own name, that does not enable it.
Stays-put :
    (name : String) (s : AwsSimulator) (seq : ℕ) (k : String) (user user' : IamUser)
    → Stays name s
    → lookup k s.users ≡ some user
    → user'.name ≡ user.name
    → (user.disabled ≡ true → user'.disabled ≡ true)
    → Stays name (aws_put user' (record s { seq = seq }))
Stays-put name s seq k user user' inv found same keep = record {
  sound = Sound-put s seq user' inv.sound;
  down =
      let own = All-lookup (λ j u. u.name ≡ j) k user s.users inv.sound.named found in
      let was = All-lookup (λ j u. j ≡ name → u.disabled ≡ true) k user s.users inv.down found in
      All-insert (λ j u. j ≡ name → u.disabled ≡ true) user'.name user' s.users
        (λ here. keep (was (sym own ∙ sym same ∙ here))) inv.down;
}

Stays-rotate_enabled :
    (name : String) (s : AwsSimulator) (k : String) (user : IamUser) (down : Bool)
    → Stays name s
    → lookup k s.users ≡ some user
    → Stays name (aws_rotate_enabled s user down).1
unfolding aws_rotate_enabled aws_renewed
Stays-rotate_enabled name s k user true inv found = inv
Stays-rotate_enabled name s k user false inv found =
    Stays-put name s (s.seq + 1) k user (aws_renewed s user (s.seq + 1)) inv found refl (λ d. d)

Stays-rotate_user :
    (name : String) (s : AwsSimulator) (k : String) (o : Option IamUser)
    → Stays name s
    → lookup k s.users ≡ o
    → Stays name (aws_rotate_user s k o).1
unfolding aws_rotate_user
Stays-rotate_user name s k none inv found = inv
Stays-rotate_user name s k (some user) inv found =
    Stays-rotate_enabled name s k user user.disabled inv found

Stays-retire_user :
    (name : String) (s : AwsSimulator) (k : String) (o : Option IamUser)
    → Stays name s
    → lookup k s.users ≡ o
    → Stays name (aws_retire_user s k o).1
unfolding aws_retire_user
Stays-retire_user name s k none inv found = inv
Stays-retire_user name s k (some user) inv found =
    Stays-put name s s.seq k user (record user { disabled = true }) inv found refl (λ d. refl)

Stays-rotate :
    (name : String) (v : MachineIdentity) (s : AwsSimulator)
    → Stays name s
    → Stays name (aws_rotate v s).1
unfolding aws_rotate
Stays-rotate name v s inv = elim (Bool-cases (scope_match s.scope (aws_name v))) [
  | inl e ↦ rw e (Stays-rotate_user name s (aws_name v) (lookup (aws_name v) s.users) inv refl)
  | inr e ↦ rw e inv
]

Stays-retire :
    (name : String) (v : MachineIdentity) (s : AwsSimulator)
    → Stays name s
    → Stays name (aws_retire v s).1
unfolding aws_retire
Stays-retire name v s inv = elim (Bool-cases (scope_match s.scope (aws_name v))) [
  | inl e ↦ rw e (Stays-retire_user name s (aws_name v) (lookup (aws_name v) s.users) inv refl)
  | inr e ↦ rw e inv
]

Stays-call :
    (name : String) (c : ProviderCall) (s : AwsSimulator)
    → Stays name s
    → Stays name (provider_call aws_adapter c s)
unfolding provider_call aws_adapter aws_discover
Stays-call name discovers s inv = inv
Stays-call name (rotates v) s inv = Stays-rotate name v s inv
Stays-call name (retires v) s inv = Stays-retire name v s inv

Stays-run :
    (name : String) (calls : List ProviderCall) (s : AwsSimulator)
    → Stays name s
    → Stays name (provider_run aws_adapter calls s)
unfolding provider_run
Stays-run name [] s inv = inv
Stays-run name (c ∷ calls) s inv =
    Stays-run name calls (provider_call aws_adapter c s) (Stays-call name c s inv)

-- A rotation of the name fails and changes nothing, and the name is not discovered.
pub record Gone (name : String) (s : AwsSimulator) : Type 0 where
  pub refused :
      (v : MachineIdentity) → aws_name v ≡ name → (e : Error) × (aws_rotate v s ≡ (err e, s))
  pub hidden : All (λ v. v.provider.provider_id ≢ name) (aws_enabled s s.users)

rotate_of-Down :
    (v : MachineIdentity) (s : AwsSimulator)
    → Down (aws_name v) s
    → (e : Error) × (aws_rotate v s ≡ (err e, s))
unfolding aws_rotate
rotate_of-Down v s down = elim (Bool-cases (scope_match s.scope (aws_name v))) [
  | inl e ↦ let ended = user_down (lookup (aws_name v) s.users) refl in (ended.0, rw e ended.1)
  | inr e ↦ (forbidden_scope_error aws_kind (aws_name v) s.scope, rw e refl)
]
  where
    user_down :
        (o : Option IamUser)
        → lookup (aws_name v) s.users ≡ o
        → (e : Error) × (aws_rotate_user s (aws_name v) o ≡ (err e, s))
    user_down none found = (unknown_id aws_kind (aws_name v), unfold aws_rotate_user in refl)
    user_down (some user) found =
        let off =
          All-lookup (λ j u. j ≡ aws_name v → u.disabled ≡ true) (aws_name v) user s.users down
            found refl in
        (
          cannot_rotate aws_kind user.name,
          unfold aws_rotate_user aws_rotate_enabled in ap (aws_rotate_enabled s user) off,
        )

hidden_of-Down :
    (name : String) (s : AwsSimulator) (users : Dict IamUser)
    → All (λ e. e.1.name ≡ e.0) users
    → All (λ e. e.0 ≡ name → e.1.disabled ≡ true) users
    → All (λ v. v.provider.provider_id ≢ name) (aws_enabled s users)
unfolding aws_enabled aws_identity
hidden_of-Down name s [] named down = tt
hidden_of-Down name s ((k, user) ∷ users) (own, named) (here, down) =
    elim (Bool-cases (user.disabled || not (scope_match s.scope user.name))) [
      | inl e ↦ rw (e, aws_enabled) (hidden_of-Down name s users named down)
      | inr e ↦
          let shown : user.name ≢ name = λ same. absurd (ground (arith, here (sym own ∙ same))) in
          rw (e, aws_enabled) (shown, hidden_of-Down name s users named down)
    ]

Stays-retired :
    (v : MachineIdentity) (s : AwsSimulator) (seen : MachineIdentity)
    → Sound s
    → (aws_retire v s).0 ≡ ok seen
    → Stays (aws_name v) (aws_retire v s).1
unfolding aws_retire
Stays-retired v s seen sound h = elim (Bool-cases (scope_match s.scope (aws_name v))) [
  | inl e ↦ rw e (user_retired (lookup (aws_name v) s.users) refl (rw e at h))
  | inr e ↦ absurd (ground arith)
]
  where
    user_retired :
        (o : Option IamUser)
        → lookup (aws_name v) s.users ≡ o
        → (aws_retire_user s (aws_name v) o).0 ≡ ok seen
        → Stays (aws_name v) (aws_retire_user s (aws_name v) o).1
    user_retired none found k = absurd (unfold aws_retire_user in ground arith)
    user_retired (some user) found k =
        let own = All-lookup (λ j u. u.name ≡ j) (aws_name v) user s.users sound.named found in
        let user' = record user { disabled = true } in
        unfold aws_retire_user in
        record {
          sound = Sound-put s s.seq user' sound;
          down =
              subst (λ n. All (λ e. e.0 ≡ n → e.1.disabled ≡ true) (insert user.name user' s.users))
                own
                (All-insert_here (λ u. u.disabled ≡ true) user.name user' s.users refl sound.keyed);
        }

-- In a simulated account with one user for a name, stored under it, once a retirement has
-- succeeded, and after any further discoveries, rotations and retirements, each rotation of that
-- name fails and changes nothing, and no discovered identity has it as its id.
pub aws_retired_lem :
    (v : MachineIdentity) (s : AwsSimulator) (seen : MachineIdentity) (calls : List ProviderCall)
    → Sound s
    → (aws_retire v s).0 ≡ ok seen
    → Gone (aws_name v) (provider_run aws_adapter calls (aws_retire v s).1)
aws_retired_lem v s seen calls sound retired_now =
    let stays =
      Stays-run (aws_name v) calls (aws_retire v s).1 (Stays-retired v s seen sound retired_now) in
    record {
      refused = λ u same. rotate_of-Down u _ (rw same stays.down);
      hidden = hidden_of-Down (aws_name v) _ _ stays.sound.named stays.down;
    }
