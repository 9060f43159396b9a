-- ===== src/Lifecycle/Operations/Revoked.antt =====
-- Secrets of a retired identity, over runs of operations.
use mathlib.Core.Path.{subst}
use mutandae.Prelude.{
  ◌≡◌, refl, sym, ◌⊎◌, inl, inr, true, false, Option-cases, some, List, All, lookup,
}
use mutandae.Protocol.{MachineIdentity, RetireRequest, UseRequest, Time, active}
use mutandae.Protocol.Errors.{Error, ok, err, bare, not_found, already_retired}
use mutandae.Protocol.Validation.{validate_retire_request}
use mutandae.Lifecycle.Env.{Env}
use mutandae.Lifecycle.Operations.{Operation, retires, perform_all}
use mutandae.Lifecycle.Operations.Rest.{perform-AtRest}
use mutandae.Lifecycle.Operations.Terminal.{AddsNone, Ended, perform_all-Ended}
use mutandae.Lifecycle.Retire.{retire}
use mutandae.Lifecycle.Retire.Answered.{Retired, retire_lem}
use mutandae.Lifecycle.Store.AtRest.{AtRest}
use mutandae.Lifecycle.Store.Monad.{Store, Sys}
use mutandae.Lifecycle.Use.{use_credential}
use mutandae.Lifecycle.Use.Secrets.{unknown_id, retired_id, refusal, use_refused}

Retired-Ended :
    (req : RetireRequest) (now : Time) (view : MachineIdentity) (old st : Store)
    → Retired req now view old st
    → Ended req.id st
Retired-Ended req now view old st h v found = cc (h.stored, found)

module _ {W : Type 0} (E : Env W) where
  -- Use of an ended id fails and changes nothing.
  ended_refused :
      (req : UseRequest) (now : Time) (s : Sys W)
      → Ended req.id s.store
      → (e : Error) × ((e ≡ bare not_found) ⊎ (e ≡ bare already_retired))
        × (use_credential E req now s ≡ (err e, s))
  unfolding refusal
  ended_refused req now s h = elim (Option-cases (lookup req.id s.identities)) [
    | inl missing ↦ (bare not_found, inl refl, use_refused E req now s (unknown_id missing))
    | inr (v, found) ↦
        (bare already_retired, inr refl, use_refused E req now s (retired_id v found (h v found)))
  ]

  module _ (req : RetireRequest) (now : Time) (s : Sys W) (v view : MachineIdentity) (w : W) where
    -- In a store at rest, once Retire has been asked with a valid, confirmed request that is no
    -- dry run for an active identity and the provider has retired it, whether saving succeeds or
    -- not, and after any further rotate, retire, delete and use requests, each Use of the id
    -- fails, as not found or as already retired; no vault is asked and nothing is written.
    pub use_after_retirement :
        (ops : List (Operation × Time)) (wanted : UseRequest) (later : Time)
        → AtRest s.store
        → validate_retire_request req ≡ ok tt
        → req.dry_run ≡ false
        → req.confirm ≡ true
        → lookup req.id s.identities ≡ some v
        → v.state ≡ active
        → E.adapter.retire v s.world ≡ (ok view, w)
        → All (λ op. AddsNone op.0) ops
        → wanted.id ≡ req.id
        → (e : Error) × ((e ≡ bare not_found) ⊎ (e ≡ bare already_retired))
          × (use_credential E wanted later (perform_all E ops (retire E req now s).1)
              ≡ (err e, perform_all E ops (retire E req now s).1))
    use_after_retirement ops wanted later rest valid wet sure found act gone adds same =
        let done = retire_lem E req now s v view w valid wet sure found act gone in
        let quiet = perform-AtRest E (retires req) now s rest in
        let ended =
          perform_all-Ended E req.id ops (retire E req now s).1 quiet adds
            (Retired-Ended req now view s.store _ done) in
        ended_refused wanted later (perform_all E ops (retire E req now s).1)
          (subst (λ k. Ended k (perform_all E ops (retire E req now s).1).store) (sym same) ended)
