-- ===== src/Lifecycle/Use/Induction.antt =====
-- To show that a predicate on the store holds behind `Use`: it outlasts one audit event.
use mutandae.Prelude.{String, ◌≡◌, refl, false, Option, none, some, lookup, ◌==◌}
use mutandae.Protocol.{
  MachineIdentity, VaultReference, UseRequest, Time, retired, state_eq, credential_used,
}
use mutandae.Protocol.Errors.{Result, ok, err, errors_is, vault_unsupported}
use mutandae.Lifecycle.Env.{Env, Vault}
use mutandae.Lifecycle.Rotate.Guards.{Guarded-known}
use mutandae.Lifecycle.Store.Guarded.{
  Guarded, Guarded-bind, Guarded-keeps, Guarded-pure, Guarded-refuse,
}
use mutandae.Lifecycle.Store.Keeps.{
  Keeps, Keeps-add_event, Keeps-ask, Keeps-bind, Keeps-if, Keeps-pure, Keeps-raise,
}
use mutandae.Lifecycle.Store.Laws.{Keeps-persist}
use mutandae.Lifecycle.Store.Monad.{Store, Sys}
use mutandae.Lifecycle.Use.{
  Read, read_common, read_credential, settle_common, settle_native, use_credential, use_guards,
  use_rest, use_reply,
}
use mutandae.Lifecycle.Vaults.Keeps.{Absorbs}

-- A retired identity does not pass.
pub record Usable {W : Type 0} (s : Sys W) (req : UseRequest) (v : MachineIdentity) : Type 0 where
  pub found : lookup req.id s.identities ≡ some v
  pub live : (v.state == retired) ≡ false

pub use_guards-Guarded :
    {W : Type 0} (s : Sys W) (req : UseRequest) → Guarded (Usable s req) (use_guards req) s
unfolding use_guards
use_guards-Guarded s req = Guarded-bind s _ _ (Guarded-known req.id s) λ v found.
    Guarded-bind s _ _ (Guarded-refuse s (v.state == retired) _)
      λ _ live. Guarded-pure s v (record { found = found; live = live })

module _ {W : Type 0} {P : Store → Type 0} (v : MachineIdentity) (version : String) where
  Keeps-settle_common : (r : Result (String × VaultReference)) → Keeps P (settle_common {W = W} r)
  unfolding settle_common
  Keeps-settle_common (ok found) = Keeps-pure _
  Keeps-settle_common (err e) = Keeps-raise _

  Keeps-read_common :
      (common : Option (Vault W)) (native : String) → Keeps P (read_common common v version native)
  unfolding read_common
  Keeps-read_common none native = Keeps-raise _
  Keeps-read_common (some vault) native =
      Keeps-bind _ _ (Keeps-ask (vault.read_secret v v.credential.key_id version))
        Keeps-settle_common

  Keeps-settle_native :
      (common : Option (Vault W)) (r : Result (String × VaultReference))
      → Keeps P (settle_native common v version r)
  unfolding settle_native
  Keeps-settle_native common (ok found) = Keeps-pure _
  Keeps-settle_native common (err e) =
      Keeps-if (errors_is e vault_unsupported) _ _ (Keeps-read_common common e.text) (Keeps-raise _)

  Keeps-read_credential :
      (native common : Option (Vault W)) → Keeps P (read_credential native common v version)
  unfolding read_credential
  Keeps-read_credential none none = Keeps-raise _
  Keeps-read_credential none (some common) = Keeps-read_common (some common) "<nil>"
  Keeps-read_credential (some vault) common =
      Keeps-bind _ _ (Keeps-ask (vault.read_secret v v.credential.key_id version))
        (Keeps-settle_native common)

module _ {W : Type 0} (E : Env W) (req : UseRequest) (now : Time) {P : Store → Type 0}
    (absorbs : Absorbs P req.id credential_used) where
  Keeps-use_rest : (v : MachineIdentity) → v.id ≡ req.id → Keeps P (use_rest E req now v)
  unfolding use_rest
  Keeps-use_rest v own =
      Keeps-bind {A = Read} _ _ (Keeps-read_credential v req.version E.adapter.vault E.common_vault)
        λ read.
          Keeps-bind _ _ (Keeps-add_event E _ (absorbs _ own refl))
            λ _. Keeps-bind _ _ (Keeps-persist E) λ _. Keeps-pure (use_reply v read)

  pub use_keeps :
      (s : Sys W)
      → ((v : MachineIdentity) → lookup req.id s.identities ≡ some v → v.id ≡ req.id)
      → P s.store
      → P (use_credential E req now s).1.store
  unfolding use_credential
  use_keeps s own p =
      Guarded-keeps s P (use_guards req) _ (use_guards-Guarded s req) p
        λ v fit. (Keeps-use_rest v (own v fit.found)).at s p
