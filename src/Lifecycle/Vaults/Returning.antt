-- ===== src/Lifecycle/Vaults/Returning.antt =====
-- Whether the deliveries and revocations return.
use mutandae.Prelude.{◌≡◌, refl, Option, none, some, String, Bool, true, false, if◌then◌else◌}
use mutandae.Protocol.{MachineIdentity, VaultReference, Time}
use mutandae.Protocol.Errors.{Error, Result, ok, err, errors_is, vault_unsupported}
use mutandae.Protocol.Validation.{is_blank}
use mutandae.Lifecycle.Env.{Call, Env, Vault}
use mutandae.Lifecycle.Store.{Draft, add_event}
use mutandae.Lifecycle.Store.Monad.{Sys, Action, ask, continue, ◌>>=◌}
use mutandae.Lifecycle.Vaults.{
  settle_delivery, deliver_with, deliver_to_vault, mirror_to_common_vault, settle_revocation,
  revoke_with, revoke_from_vault, revoke_from_common_vault,
}

-- The action returns in any state.
pub record Returning {W A : Type 0} (m : Action W A) : Type 0 where
  pub at : (s : Sys W) → (a : A) × ((m s).0 ≡ ok a)

Returning-if :
    {W A : Type 0} (b : Bool) (m n : Action W A)
    → Returning m
    → Returning n
    → Returning (if b then m else n)
Returning-if true m n rm rn = rm
Returning-if false m n rm rn = rn

pub Returning-ask : {W A : Type 0} (call : Call W A) → Returning (ask call)
Returning-ask call = record { at = λ s. ((call s.world).0, refl) }

module _ {W A B : Type 0} where
  returned :
      (r : Result A) (f : A → Action W B) (s : Sys W) (a : A)
      → r ≡ ok a
      → Returning (f a)
      → (b : B) × ((continue r f s).0 ≡ ok b)
  returned r f s a h k = rw h (k.at s)

  pub Returning-bind :
      (m : Action W A) (f : A → Action W B)
      → Returning m
      → ((a : A) → Returning (f a))
      → Returning (m >>= f)
  Returning-bind m f rm rf = record {
    at = λ s. let (a, h) = rm.at s in returned (m s).0 f (m s).1 a h (rf a);
  }

module _ {W : Type 0} (E : Env W) where
  Returning-settle_delivery :
      (stored : VaultReference → Draft) (failed : Error → Draft) (r : Result VaultReference)
      → Returning (settle_delivery E stored failed r)
  unfolding settle_delivery add_event
  Returning-settle_delivery stored failed (ok ref) = record { at = λ s. (some ref, refl) }
  Returning-settle_delivery stored failed (err e) =
      Returning-if (errors_is e vault_unsupported) _ _ (record { at = λ s. (none, refl) })
        (record { at = λ s. (none, refl) })

  Returning-deliver_with :
      (vault : Option (Vault W)) (stored : VaultReference → Draft) (failed : Error → Draft)
      (v : MachineIdentity) (key_id secret : String)
      → Returning (deliver_with E vault stored failed v key_id secret)
  unfolding deliver_with
  Returning-deliver_with none stored failed v key_id secret = record { at = λ s. (none, refl) }
  Returning-deliver_with (some vault) stored failed v key_id secret =
      Returning-if (is_blank secret) _ _ (record { at = λ s. (none, refl) })
        (Returning-bind _ _ (Returning-ask (vault.store_secret v key_id secret))
          (Returning-settle_delivery stored failed))

  Returning-settle_revocation :
      (done : VaultReference → Draft) (failed : Error → Draft) (r : Result VaultReference)
      → Returning (settle_revocation E done failed r)
  unfolding settle_revocation add_event
  Returning-settle_revocation done failed (ok ref) = record { at = λ s. (tt, refl) }
  Returning-settle_revocation done failed (err e) =
      Returning-if (errors_is e vault_unsupported) _ _ (record { at = λ s. (tt, refl) })
        (record { at = λ s. (tt, refl) })

  Returning-revoke_with :
      (vault : Option (Vault W)) (done : VaultReference → Draft) (failed : Error → Draft)
      (v : MachineIdentity)
      → Returning (revoke_with E vault done failed v)
  unfolding revoke_with
  Returning-revoke_with none done failed v = record { at = λ s. (tt, refl) }
  Returning-revoke_with (some vault) done failed v =
      Returning-bind _ _ (Returning-ask (vault.revoke_secret v v.credential.key_id))
        (Returning-settle_revocation done failed)

  -- Storing a credential in either vault and revoking it from either vault return in any state,
  -- whatever the vault answers: a vault failure never becomes an error of the operation.
  pub vaults_lem :
      (v : MachineIdentity) (key_id secret : String) (now : Time)
      → Returning (deliver_to_vault E v key_id secret now)
        × Returning (mirror_to_common_vault E v key_id secret now)
        × Returning (revoke_from_vault E v now)
        × Returning (revoke_from_common_vault E v now)
  unfolding deliver_to_vault mirror_to_common_vault revoke_from_vault revoke_from_common_vault
  vaults_lem v key_id secret now = (
    Returning-deliver_with E.adapter.vault _ _ v key_id secret,
    Returning-deliver_with E.common_vault _ _ v key_id secret,
    Returning-revoke_with E.adapter.vault _ _ v,
    Returning-revoke_with E.common_vault _ _ v,
  )
