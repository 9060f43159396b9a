-- ===== src/Lifecycle/Use/Secrets.antt =====
-- The refusals of `Use`, and the failure of a provider's vault.
use mutandae.Prelude.{String, ◌≡◌, ◌∙◌, ◌==◌, refl, false, Option, none, some, lookup}
use mutandae.Protocol.{MachineIdentity, UseRequest, Time, retired, state_eq}
use mutandae.Protocol.Errors.{
  Error, ok, err, errors_is, vault_unsupported, wrap, provider_failure, bare, already_retired,
  not_found,
}
use mutandae.Lifecycle.Env.{Env, Vault}
use mutandae.Lifecycle.Store.Monad.{Store, Sys, pure, ◌>>=◌}
use mutandae.Lifecycle.Store.{add_event}
use mutandae.Lifecycle.Store.Snapshots.{persist}
use mutandae.Lifecycle.Use.{
  use_rest, use_reply, used_event, use_credential, use_guards, read_credential, settle_native,
}

-- The identity is unknown or retired.
pub data Unusable (req : UseRequest) (st : Store) : Type 0 where
  unknown_id : lookup req.id st.identities ≡ none → Unusable req st
  retired_id :
      (v : MachineIdentity)
      → lookup req.id st.identities ≡ some v
      → v.state ≡ retired
      → Unusable req st

unfoldable pub refusal : {req : UseRequest} {st : Store} → Unusable req st → Error
refusal (unknown_id h) = bare not_found
refusal (retired_id v h gone) = bare already_retired

module _ {W : Type 0} (E : Env W) (req : UseRequest) (now : Time) (s : Sys W) where
  -- Use of an unknown or of a retired identity fails with the error of that case; no vault is
  -- asked and nothing is written.
  pub use_refused :
      (why : Unusable req s.store) → use_credential E req now s ≡ (err (refusal why), s)
  unfolding use_credential use_guards refusal
  use_refused (unknown_id missing) = rw missing refl
  use_refused (retired_id v found gone) = simp (found, gone)

module _ {W : Type 0} (native : Vault W) (common : Option (Vault W)) (v : MachineIdentity)
    (version : String) (s : Sys W) (e : Error) (w : W) where
  -- When the provider's vault fails to read with any error but that it is not supported, the read
  -- fails as a provider failure with that text, and the cluster's vault is not asked.
  pub read_credential_outage :
      native.read_secret v v.credential.key_id version s.world ≡ (err e, w)
      → errors_is e vault_unsupported ≡ false
      → read_credential (some native) common v version s
        ≡ (err (wrap provider_failure e.text), record s { world = w })
  unfolding read_credential settle_native
  read_credential_outage h real = simp (h, real)

-- A known identity that is not retired, with a provider's vault.
pub record Served {W : Type 0} (E : Env W) (req : UseRequest) (s : Sys W) (v : MachineIdentity)
    (native : Vault W) : Type 0 where
  pub found : lookup req.id s.identities ≡ some v
  pub live : (v.state == retired) ≡ false
  pub vault : E.adapter.vault ≡ some native

module _ {W : Type 0} (E : Env W) (req : UseRequest) (now : Time) (s : Sys W) (v : MachineIdentity)
    (native : Vault W) (served_by : Served E req s v native) where
  guards_pass : use_guards req s ≡ (ok v, s)
  unfolding use_guards
  guards_pass = simp (served_by.found, served_by.live)

  rest_reached :
      use_credential E req now s
      ≡ (read_credential (some native) E.common_vault v req.version >>= λ read.
            add_event E (used_event req v now read) >>= λ _.
            persist E >>= λ _. pure (use_reply v read))
          s
  unfolding use_credential use_rest
  rest_reached = simp (guards_pass, served_by.vault)

  -- For a known identity that is not retired and a provider's vault that fails to read with any
  -- error but that it is not supported, Use fails as a provider failure with that text: the
  -- cluster's vault is not asked, and the store stays as it was.
  pub use_outage :
      (e : Error) (w : W)
      → native.read_secret v v.credential.key_id req.version s.world ≡ (err e, w)
      → errors_is e vault_unsupported ≡ false
      → use_credential E req now s ≡ (err (wrap provider_failure e.text), record s { world = w })
  use_outage e w h real =
      rest_reached
      ∙ (rw (read_credential_outage native E.common_vault v req.version s e w h real) refl)
