-- ===== src/Lifecycle/Vaults/Keeps.antt =====
-- Predicates on the store that the deliveries and revocations keep.
use mutandae.Prelude.{String, ◌≡◌, refl, Option, none, some}
use mutandae.Protocol.{
  MachineIdentity, VaultReference, Time, EventType, credential_delivered, credential_revoked,
}
use mutandae.Protocol.Errors.{Error, Result, ok, err, errors_is, vault_unsupported}
use mutandae.Protocol.Validation.{is_blank}
use mutandae.Lifecycle.Env.{Env, Vault}
use mutandae.Lifecycle.Store.{Draft, add_event, append_event}
use mutandae.Lifecycle.Store.Keeps.{
  Keeps, Keeps-pure, Keeps-if, Keeps-ask, Keeps-bind, Keeps-add_event,
}
use mutandae.Lifecycle.Store.Monad.{Store}
use mutandae.Lifecycle.Vaults.{
  settle_delivery, deliver_with, deliver_to_vault, mirror_to_common_vault, settle_revocation,
  revoke_with, revoke_from_vault, revoke_from_common_vault,
}
use mutandae.Lifecycle.Vaults.Drafts.{
  delivered, delivery_failed, mirrored, mirror_failed, revoked, revocation_failed, common_revoked,
  common_revocation_failed,
}

-- `P` outlasts events of one type about one identity.
abbrev pub Absorbs : (Store → Type 0) → String → EventType → Type 0
Absorbs P id kind =
    (d : Draft)
    → d.identity_id ≡ id
    → d.event_type ≡ kind
    → (st : Store) → P st
    → P (append_event d st)

module _ {W : Type 0} (E : Env W) {P : Store → Type 0} (identity : MachineIdentity) where
  module _ (absorbs : Absorbs P identity.id credential_delivered) where
    Keeps-settle_delivery :
        (stored : VaultReference → Draft) (failed : Error → Draft) (r : Result VaultReference)
        → ((ref : VaultReference) → Keeps P (add_event E (stored ref)))
        → ((e : Error) → Keeps P (add_event E (failed e)))
        → Keeps P (settle_delivery E stored failed r)
    unfolding settle_delivery
    Keeps-settle_delivery stored failed (ok ref) ks kf =
        Keeps-bind _ _ (ks ref) (λ _. Keeps-pure (some ref))
    Keeps-settle_delivery stored failed (err e) ks kf =
        Keeps-if (errors_is e vault_unsupported) _ _ (Keeps-pure none)
          (Keeps-bind _ _ (kf e) (λ _. Keeps-pure none))

    Keeps-deliver_with :
        (vault : Option (Vault W)) (stored : VaultReference → Draft) (failed : Error → Draft)
        (key_id secret : String)
        → ((ref : VaultReference) → Keeps P (add_event E (stored ref)))
        → ((e : Error) → Keeps P (add_event E (failed e)))
        → Keeps P (deliver_with E vault stored failed identity key_id secret)
    unfolding deliver_with
    Keeps-deliver_with none stored failed key_id secret ks kf = Keeps-pure none
    Keeps-deliver_with (some vault) stored failed key_id secret ks kf =
        Keeps-if (is_blank secret) _ _ (Keeps-pure none) (
          Keeps-bind _ _ (Keeps-ask (vault.store_secret identity key_id secret))
            (λ r. Keeps-settle_delivery stored failed r ks kf))

    pub Keeps-deliver_to_vault :
        (key_id secret : String) (now : Time)
        → Keeps P (deliver_to_vault E identity key_id secret now)
    unfolding deliver_to_vault
    Keeps-deliver_to_vault key_id secret now =
        Keeps-deliver_with E.adapter.vault _ _ key_id secret
          (λ ref. Keeps-add_event E (delivered identity key_id now ref) (absorbs _ refl refl))
          (λ e. Keeps-add_event E (delivery_failed identity key_id now e) (absorbs _ refl refl))

    pub Keeps-mirror_to_common_vault :
        (key_id secret : String) (now : Time)
        → Keeps P (mirror_to_common_vault E identity key_id secret now)
    unfolding mirror_to_common_vault
    Keeps-mirror_to_common_vault key_id secret now =
        Keeps-deliver_with E.common_vault _ _ key_id secret
          (λ ref. Keeps-add_event E (mirrored identity key_id now ref) (absorbs _ refl refl))
          (λ e. Keeps-add_event E (mirror_failed identity key_id now e) (absorbs _ refl refl))

  module _ (absorbs : Absorbs P identity.id credential_revoked) where
    Keeps-revoke_with :
        (vault : Option (Vault W)) (done : VaultReference → Draft) (failed : Error → Draft)
        → ((ref : VaultReference) → Keeps P (add_event E (done ref)))
        → ((e : Error) → Keeps P (add_event E (failed e)))
        → Keeps P (revoke_with E vault done failed identity)
    unfolding revoke_with
    Keeps-revoke_with none done failed kd kf = Keeps-pure tt
    Keeps-revoke_with (some vault) done failed kd kf =
        Keeps-bind _ _ (Keeps-ask (vault.revoke_secret identity identity.credential.key_id)) settled
      where
        settled : (r : Result VaultReference) → Keeps P (settle_revocation E done failed r)
        settled (ok ref) = kd ref
        settled (err e) = Keeps-if (errors_is e vault_unsupported) _ _ (Keeps-pure tt) (kf e)

    pub Keeps-revoke_from_vault : (now : Time) → Keeps P (revoke_from_vault E identity now)
    unfolding revoke_from_vault
    Keeps-revoke_from_vault now =
        Keeps-revoke_with E.adapter.vault _ _
          (λ ref. Keeps-add_event E (revoked identity now ref) (absorbs _ refl refl))
          (λ e. Keeps-add_event E (revocation_failed identity now e) (absorbs _ refl refl))

    pub Keeps-revoke_from_common_vault :
        (now : Time) → Keeps P (revoke_from_common_vault E identity now)
    unfolding revoke_from_common_vault
    Keeps-revoke_from_common_vault now =
        Keeps-revoke_with E.common_vault _ _
          (λ ref. Keeps-add_event E (common_revoked identity now ref) (absorbs _ refl refl))
          (λ e. Keeps-add_event E (common_revocation_failed identity now e) (absorbs _ refl refl))
