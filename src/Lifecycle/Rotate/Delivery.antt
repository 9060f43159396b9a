-- ===== src/Lifecycle/Rotate/Delivery.antt =====
-- Predicates on the store that the deliveries behind a rotation keep.
use mutandae.Prelude.{String, ◌≡◌, refl, Option, none, some, ◌==◌, string_eq}
use mutandae.Protocol.{MachineIdentity, VaultReference, Time, credential_delivered}
use mutandae.Lifecycle.Env.{Env}
use mutandae.Lifecycle.Rotate.{record_references, deliver_secret, deliver_issued, deliver_renewed}
use mutandae.Lifecycle.Store.{put_identity}
use mutandae.Lifecycle.Store.Keeps.{Keeps, Keeps-pure, Keeps-if, Keeps-bind}
use mutandae.Lifecycle.Store.Monad.{Store}
use mutandae.Lifecycle.Vaults.Keeps.{Absorbs, Keeps-deliver_to_vault, Keeps-mirror_to_common_vault}

-- `P` outlasts a write of an identity with the id, the state and the health of `identity`.
abbrev pub AbsorbsPut : (Store → Type 0) → MachineIdentity → Type 0
AbsorbsPut P identity =
    (v : MachineIdentity)
    → v.id ≡ identity.id
    → v.state ≡ identity.state
    → v.health ≡ identity.health
    → (st : Store) → P st
    → P (put_identity v.id v st)

module _ {W : Type 0} {P : Store → Type 0} (identity : MachineIdentity)
    (puts : AbsorbsPut P identity) where
  pub Keeps-record_references :
      (native common : Option VaultReference) (now : Time)
      → Keeps P (record_references {W = W} identity native common now)
  unfolding record_references
  Keeps-record_references none none now = Keeps-pure identity
  Keeps-record_references (some n) none now = record { at = λ s h. puts _ refl refl refl s.store h }
  Keeps-record_references none (some c) now = record { at = λ s h. puts _ refl refl refl s.store h }
  Keeps-record_references (some n) (some c) now = record {
    at = λ s h. puts _ refl refl refl s.store h;
  }

module _ {W : Type 0} (E : Env W) {P : Store → Type 0} (identity : MachineIdentity)
    (absorbs : Absorbs P identity.id credential_delivered) (puts : AbsorbsPut P identity) where
  Keeps-deliver_secret :
      (now : Time) (secret : String) → Keeps P (deliver_secret E identity now secret)
  unfolding deliver_secret
  Keeps-deliver_secret now secret = Keeps-if (secret == "") _ _ (Keeps-pure identity) (
      Keeps-bind _ _ (Keeps-deliver_to_vault E identity absorbs _ secret now) λ native.
        Keeps-bind _ _ (Keeps-mirror_to_common_vault E identity absorbs _ secret now)
          λ common. Keeps-record_references identity puts native common now)

  Keeps-deliver_issued :
      (consume : Option (String → W → String × W)) (now : Time)
      → Keeps P (deliver_issued E consume identity now)
  unfolding deliver_issued
  Keeps-deliver_issued none now = Keeps-pure identity
  Keeps-deliver_issued (some consume) now = record {
    at = λ s h. (Keeps-deliver_secret now _).at _ h;
  }

  pub Keeps-deliver_renewed : (now : Time) → Keeps P (deliver_renewed E identity now)
  unfolding deliver_renewed
  Keeps-deliver_renewed now = Keeps-deliver_issued E.adapter.consume_one_time_secret now
