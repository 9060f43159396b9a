-- ===== src/Lifecycle/Use.antt =====
-- `Use` of internal/lifecycle/lifecycle.go: one audited read of a credential.
pub mod Induction
pub mod Secrets
pub mod Readings
pub mod Audited
use mutandae.Prelude.{
  String, Bool, true, false, not, Option, none, some, List, [], ◌∷◌, ◌==◌, string_eq, if◌then◌else◌,
  ◌<>◌, ◌++◌,
}
use mutandae.Protocol.{
  MachineIdentity, VaultReference, Metadata, Time, UseRequest, UseResponse, retired, state_eq,
  success, credential_used, or_operator,
}
use mutandae.Protocol.Errors.{
  Error, Result, ok, err, bare, wrap, errors_is, already_retired, vault_unsupported,
  provider_failure,
}
use mutandae.Lifecycle.Env.{Env, Vault}
use mutandae.Lifecycle.Rotate.{require_known}
use mutandae.Lifecycle.Store.{Draft, add_event}
use mutandae.Lifecycle.Store.Monad.{
  Store, Sys, Action, ask, modify, pure, raise, refuse, ◌>>=◌, ◌>>◌,
}
use mutandae.Lifecycle.Store.Snapshots.{persist}
use mutandae.Lifecycle.Vaults.Drafts.{native_details, common_vault_kind, provider_vault_label}

-- The secret, where it is, and whether the cluster's vault gave it.
pub record Read : Type 0 where
  pub value : String
  pub reference : VaultReference
  pub from_common : Bool

abbrev pub read_of : Bool → String × VaultReference → Read
read_of common (value, ref) = record { value = value; reference = ref; from_common = common }

-- Here an empty version is left out.
abbrev common_version : String → Metadata
common_version version = if version == "" then [] else ("common_vault_version", version) ∷ []

abbrev common_url : String → Metadata
common_url url = if url == "" then [] else ("common_vault_url", url) ∷ []

abbrev read_details : VaultReference → Bool → Metadata
read_details ref true =
    ("vault_kind", common_vault_kind)
    ∷ ("common_vault_secret", ref.secret_name)
    ∷ (common_version ref.version ++ common_url ref.url)
read_details ref false = native_details ref

abbrev read_place : MachineIdentity → Bool → String
read_place identity true = "cluster μVault vault"
read_place identity false = provider_vault_label identity.provider.provider

abbrev pub used_event : UseRequest → MachineIdentity → Time → Read → Draft
used_event req identity now read = record {
  identity_id = identity.id;
  at = now;
  event_type = credential_used;
  summary =
      "Credential retrieved from the "
      <> read_place identity read.from_common
      <> " by "
      <> or_operator req.requested_by;
  actor = or_operator req.requested_by;
  outcome = success;
  details = ("key_id", identity.credential.key_id) ∷ read_details read.reference read.from_common;
  run_id = "";
}

abbrev pub use_reply : MachineIdentity → Read → UseResponse
use_reply identity read = record {
  identity = identity;
  key_id = identity.credential.key_id;
  secret = read.value;
  vault = read.reference;
}

module _ {W : Type 0} where
  unfoldable pub use_guards : UseRequest → Action W MachineIdentity
  use_guards req = do
    identity ← require_known req.id
    refuse (identity.state == retired) (bare already_retired)
    pure identity

  unfoldable pub settle_common : Result (String × VaultReference) → Action W Read
  settle_common (ok found) = pure (read_of true found)
  settle_common (err e) = raise (wrap provider_failure e.text)

  -- The fallback on the cluster's vault, behind a native vault that failed with `native`.
  unfoldable pub read_common : Option (Vault W) → MachineIdentity → String → String → Action W Read
  unfolding settle_common
  read_common none identity version native = raise (wrap provider_failure native)
  read_common (some vault) identity version native =
      ask (vault.read_secret identity identity.credential.key_id version) >>= settle_common

  -- Only an intentionally unsupported vault is fallen back from.
  unfoldable pub settle_native :
      Option (Vault W) → MachineIdentity → String → Result (String × VaultReference) → Action W Read
  unfolding read_common
  settle_native common identity version (ok found) = pure (read_of false found)
  settle_native common identity version (err e) =
      if errors_is e vault_unsupported
      then read_common common identity version e.text
      else raise (wrap provider_failure e.text)

  -- The vaults of the adapter and of the cluster.
  unfoldable pub read_credential :
      Option (Vault W) → Option (Vault W) → MachineIdentity → String → Action W Read
  unfolding settle_native
  read_credential none none identity version = raise (bare vault_unsupported)
  read_credential none (some common) identity version =
      read_common (some common) identity version "<nil>"
  read_credential (some vault) common identity version =
      ask (vault.read_secret identity identity.credential.key_id version)
      >>= settle_native common identity version

module _ {W : Type 0} (E : Env W) where
  -- What follows the guards.
  unfoldable pub use_rest : UseRequest → Time → MachineIdentity → Action W UseResponse
  unfolding read_credential
  use_rest req now identity = do
    read ← read_credential E.adapter.vault E.common_vault identity req.version
    add_event E (used_event req identity now read)
    persist E
    pure (use_reply identity read)

  unfoldable pub use_credential : UseRequest → Time → Action W UseResponse
  unfolding use_guards use_rest
  use_credential req now = use_guards req >>= use_rest req now
