-- ===== src/Lifecycle/Provision.antt =====
-- `Provision` of internal/lifecycle/lifecycle.go: a new identity in the provider's tenant.
pub mod Induction
use mutandae.Prelude.{
  String, Bool, true, false, Option, none, some, ◌==◌, string_eq, if◌then◌else◌, ◌<>◌, trim_space,
}
use mutandae.Protocol.{
  MachineIdentity, Time, VaultReference, ProvisionRequest, ProvisionResponse, active, healthy,
  or_control_plane,
}
use mutandae.Protocol.Errors.{
  Error, Result, ok, err, bare, wrap, prefix, conformance, provider_failure,
}
use mutandae.Protocol.Validation.{validate_identity}
use mutandae.Lifecycle.Env.{Env, Call}
use mutandae.Lifecycle.Errors.{provider_operation_error}
use mutandae.Lifecycle.Rotate.{record_references}
use mutandae.Lifecycle.Register.{fix_identity, discovered_event, registered_event}
use mutandae.Lifecycle.Store.{Draft, add_event, put_identity}
use mutandae.Lifecycle.Store.Monad.{
  Store, Sys, Action, ask, modify, pure, raise, refuse, ◌>>=◌, ◌>>◌,
}
use mutandae.Lifecycle.Store.Snapshots.{persist}
use mutandae.Lifecycle.Vaults.{deliver_to_vault, mirror_to_common_vault}

abbrev pub provisioned : MachineIdentity → Time → MachineIdentity
provisioned identity now = record (fix_identity identity) {
  state = active;
  health = healthy;
  created_at = now;
  updated_at = now;
}

-- The provider's reference wins, then the cluster's.
abbrev pub answered_vault :
    Option VaultReference → Option VaultReference → Option VaultReference → Option VaultReference
answered_vault (some native) common given = some native
answered_vault none (some common) given = some common
answered_vault none none given = given

abbrev pub provision_reply :
    ProvisionResponse
    → MachineIdentity
    → Option VaultReference
    → Option VaultReference
    → ProvisionResponse
provision_reply response identity native common = record response {
  identity = identity;
  vault = answered_vault native common response.vault;
}

module _ {W : Type 0} where
  settle_create : Result ProvisionResponse → Action W ProvisionResponse
  settle_create (ok response) = pure response
  settle_create (err e) = raise (provider_operation_error e)

  -- Without a provisioner the adapter fails.
  create_call :
      Option (String → String → Call W ProvisionResponse)
      → String
      → String
      → Action W ProvisionResponse
  unfolding settle_create
  create_call none provider purpose = raise (bare provider_failure)
  create_call (some create) provider purpose = ask (create provider purpose) >>= settle_create

module _ {W : Type 0} (E : Env W) where
  -- An identity that cannot be adopted is retired at once, whatever that answers.
  check_provisioned : MachineIdentity → Result (Unit {0}) → Action W (Unit {0})
  check_provisioned identity (ok _) = pure tt
  check_provisioned identity (err e) = do
    ask (E.adapter.retire identity)
    raise (prefix "provisioned identity is not conformant: " e)

  -- The critical section: the record and its first two events.
  unfoldable pub adopt_provisioned :
      ProvisionRequest → String → MachineIdentity → Time → Action W (Unit {0})
  adopt_provisioned req provider identity now = do
    modify (put_identity identity.id identity)
    add_event E (discovered_event identity now "Provisioned" provider)
    add_event E (registered_event identity now (or_control_plane req.requested_by))

  -- The deliveries of the one-time secret, which only the response keeps.
  unfoldable pub govern_rest :
      ProvisionResponse → Time → MachineIdentity → Action W ProvisionResponse
  unfolding record_references
  govern_rest response now identity = do
    native ← deliver_to_vault E identity response.key_id response.one_time_secret now
    common ← mirror_to_common_vault E identity response.key_id response.one_time_secret now
    identity' ← record_references identity native common now
    persist E
    pure (provision_reply response identity' native common)

  -- What follows the call of the provider.
  unfoldable pub govern_provisioned :
      ProvisionRequest → String → ProvisionResponse → Time → Action W ProvisionResponse
  unfolding check_provisioned adopt_provisioned govern_rest
  govern_provisioned req provider response now = do
    refuse (response.identity.name == "")
        (wrap provider_failure (provider <> " adapter returned no identity"))
    let identity = provisioned response.identity now
    check_provisioned identity (validate_identity identity)
    adopt_provisioned req provider identity now
    govern_rest response now identity

  unfoldable pub provision : ProvisionRequest → Time → Action W ProvisionResponse
  unfolding create_call govern_provisioned
  provision req now = do
    let provider = trim_space req.provider
    refuse (provider == "") (wrap conformance "provider is required")
    response ← create_call E.adapter.create provider req.purpose
    govern_provisioned req provider response now
