-- ===== src/Lifecycle/Vaults/Drafts.antt =====
-- The audit events of vault deliveries and revocations. Their details name keys, secrets and
-- versions, and never hold a secret.
use mutandae.Prelude.{String, [], ◌∷◌, ◌==◌, string_eq, if◌then◌else◌, ◌<>◌}
use mutandae.Protocol.{
  MachineIdentity, VaultReference, Metadata, Time, EventType, Outcome, credential_delivered,
  credential_revoked, success, attention_outcome, actor_provider_adapter,
}
use mutandae.Protocol.Errors.{Error}
use mutandae.Lifecycle.Store.{Draft}

-- `providerVaultLabel`
unfoldable pub provider_vault_label : String → String
provider_vault_label provider =
    if provider == "azure-entra"
    then "Azure Key Vault"
    else if provider == "aws-iam"
    then "AWS Secrets Manager"
    else if provider == "gcp-iam"
    then "GCP Secret Manager"
    else "provider vault"

abbrev pub common_vault_kind : String
common_vault_kind = "cluster-mutandae-vault"

abbrev url_detail : String → String → Metadata
url_detail key url = if url == "" then [] else (key, url) ∷ []

abbrev pub native_details : VaultReference → Metadata
native_details ref =
    ("vault_secret", ref.secret_name)
    ∷ ("vault_version", ref.version)
    ∷ url_detail "vault_url" ref.url

abbrev pub common_details : VaultReference → Metadata
common_details ref =
    ("vault_kind", common_vault_kind)
    ∷ ("common_vault_secret", ref.secret_name)
    ∷ ("common_vault_version", ref.version)
    ∷ url_detail "common_vault_url" ref.url

-- An event of the provider adapter about a credential of `identity`.
abbrev pub credential_event :
    MachineIdentity → Time → EventType → String → Outcome → Metadata → Draft
credential_event identity now kind summary outcome details = record {
  identity_id = identity.id;
  at = now;
  event_type = kind;
  summary = summary;
  actor = actor_provider_adapter;
  outcome = outcome;
  details = details;
  run_id = "";
}

module _ (identity : MachineIdentity) (key_id : String) (now : Time) where
  abbrev pub delivered : VaultReference → Draft
  delivered ref =
      credential_event identity now credential_delivered
        ("Credential stored in the "
          <> provider_vault_label identity.provider.provider
          <> " ("
          <> ref.secret_name
          <> "), retrievable on demand")
        success (("key_id", key_id) ∷ ("provider", identity.provider.provider) ∷ native_details ref)

  abbrev pub delivery_failed : Error → Draft
  delivery_failed e =
      credential_event identity now credential_delivered
        ("Vault delivery failed: the credential was issued but not stored in the "
          <> provider_vault_label identity.provider.provider)
        attention_outcome
        (("key_id", key_id) ∷ ("error", e.text) ∷ ("provider", identity.provider.provider) ∷ [])

  abbrev pub mirrored : VaultReference → Draft
  mirrored ref =
      credential_event identity now credential_delivered
        ("Credential stored in the cluster μVault vault (" <> ref.secret_name
          <> "), retrievable on demand")
        success (("key_id", key_id) ∷ common_details ref)

  abbrev pub mirror_failed : Error → Draft
  mirror_failed e =
      credential_event identity now credential_delivered
        ("Cluster vault delivery failed: the credential was issued but not stored in the cluster "
          <> "μVault vault")
        attention_outcome
        (("key_id", key_id) ∷ ("vault_kind", common_vault_kind) ∷ ("error", e.text) ∷ [])

module _ (identity : MachineIdentity) (now : Time) where
  abbrev pub revoked : VaultReference → Draft
  revoked ref =
      credential_event identity now credential_revoked
        ("Vault copy disabled in the " <> provider_vault_label identity.provider.provider) success
        (("key_id", identity.credential.key_id) ∷ native_details ref)

  abbrev pub revocation_failed : Error → Draft
  revocation_failed e =
      credential_event identity now credential_revoked ("Vault revocation failed: " <> e.text)
        attention_outcome (("key_id", identity.credential.key_id) ∷ ("error", e.text) ∷ [])

  abbrev pub common_revoked : VaultReference → Draft
  common_revoked ref =
      credential_event identity now credential_revoked "Cluster vault copy removed (μVault)" success
        (("key_id", identity.credential.key_id) ∷ common_details ref)

  abbrev pub common_revocation_failed : Error → Draft
  common_revocation_failed e =
      credential_event identity now credential_revoked
        ("Cluster vault revocation failed: " <> e.text) attention_outcome
        (("key_id", identity.credential.key_id)
          ∷ ("vault_kind", common_vault_kind)
          ∷ ("error", e.text)
          ∷ [])
