-- ===== src/Lifecycle/Vaults.antt =====
-- Delivery of issued credentials to the provider's vault and to the cluster's, and their revocation:
-- `deliverToVault`, `mirrorToCommonVault`, `revokeFromVault`, `revokeFromCommonVault` and the
-- metadata that names the copies, of internal/lifecycle/lifecycle.go.
pub mod Drafts
pub mod Keeps
pub mod Returning
use mutandae.Prelude.{String, Bool, Option, none, some, ◌==◌, string_eq, if◌then◌else◌, insert}
use mutandae.Protocol.{MachineIdentity, VaultReference, Metadata, Time}
use mutandae.Protocol.Errors.{Error, Result, ok, err, errors_is, vault_unsupported}
use mutandae.Protocol.Validation.{is_blank}
use mutandae.Lifecycle.Env.{Env, Vault}
use mutandae.Lifecycle.Store.{Draft, add_event}
use mutandae.Lifecycle.Store.Monad.{Sys, Action, ask, pure, ◌>>=◌, ◌>>◌}
use Drafts.{
  delivered, delivery_failed, mirrored, mirror_failed, revoked, revocation_failed, common_revoked,
  common_revocation_failed,
}

abbrev put_url : String → String → Metadata → Metadata
put_url key value m = if value == "" then m else insert key value m

-- `withVaultMetadata`, of a reference that is there.
unfoldable pub with_vault_metadata : Metadata → VaultReference → Metadata
with_vault_metadata m ref =
    put_url "vault_version" ref.version
      (insert "vault_secret" ref.secret_name (put_url "vault_url" ref.url m))

-- `withCommonVaultMetadata`
unfoldable pub with_common_vault_metadata : Metadata → VaultReference → Metadata
with_common_vault_metadata m ref =
    put_url "common_vault_version" ref.version
      (insert "common_vault_secret" ref.secret_name (put_url "common_vault_url" ref.url m))

module _ {W : Type 0} (E : Env W) where
  -- The answer of a vault to `StoreSecret`: a vault that is switched off is passed over.
  settle_delivery :
      (VaultReference → Draft)
      → (Error → Draft)
      → Result VaultReference
      → Action W (Option VaultReference)
  settle_delivery stored failed (ok ref) = add_event E (stored ref) >> pure (some ref)
  settle_delivery stored failed (err e) =
      if errors_is e vault_unsupported then pure none else (add_event E (failed e) >> pure none)

  deliver_with :
      Option (Vault W)
      → (VaultReference → Draft)
      → (Error → Draft)
      → MachineIdentity
      → String
      → String
      → Action W (Option VaultReference)
  unfolding settle_delivery
  deliver_with none stored failed identity key_id secret = pure none
  deliver_with (some vault) stored failed identity key_id secret =
      if is_blank secret
      then pure none
      else (ask (vault.store_secret identity key_id secret) >>= settle_delivery stored failed)

  unfoldable pub deliver_to_vault :
      MachineIdentity → String → String → Time → Action W (Option VaultReference)
  unfolding deliver_with
  deliver_to_vault identity key_id secret now =
      deliver_with E.adapter.vault (delivered identity key_id now)
        (delivery_failed identity key_id now) identity key_id secret

  unfoldable pub mirror_to_common_vault :
      MachineIdentity → String → String → Time → Action W (Option VaultReference)
  unfolding deliver_with
  mirror_to_common_vault identity key_id secret now =
      deliver_with E.common_vault (mirrored identity key_id now) (mirror_failed identity key_id now)
        identity key_id secret

  settle_revocation :
      (VaultReference → Draft) → (Error → Draft) → Result VaultReference → Action W (Unit {0})
  settle_revocation done failed (ok ref) = add_event E (done ref)
  settle_revocation done failed (err e) =
      if errors_is e vault_unsupported then pure tt else add_event E (failed e)

  revoke_with :
      Option (Vault W)
      → (VaultReference → Draft)
      → (Error → Draft)
      → MachineIdentity
      → Action W (Unit {0})
  unfolding settle_revocation
  revoke_with none done failed identity = pure tt
  revoke_with (some vault) done failed identity =
      ask (vault.revoke_secret identity identity.credential.key_id)
      >>= settle_revocation done failed

  -- Its `operator` argument is not used.
  unfoldable pub revoke_from_vault : MachineIdentity → Time → Action W (Unit {0})
  unfolding revoke_with
  revoke_from_vault identity now =
      revoke_with E.adapter.vault (revoked identity now) (revocation_failed identity now) identity

  unfoldable pub revoke_from_common_vault : MachineIdentity → Time → Action W (Unit {0})
  unfolding revoke_with
  revoke_from_common_vault identity now =
      revoke_with E.common_vault (common_revoked identity now)
        (common_revocation_failed identity now) identity
