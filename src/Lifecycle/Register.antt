-- ===== src/Lifecycle/Register.antt =====
-- `Register`, `adopt` and `fixIdentity` of internal/lifecycle/lifecycle.go.
pub mod Induction
use mutandae.Prelude.{
  ℕ, ◌+◌, String, Bool, true, false, not, Option, none, some, List, [], ◌∷◌, ◌++◌, is_some, lookup,
  ◌==◌, string_eq, if◌then◌else◌, ◌<>◌, trim_space,
}
use mutandae.Protocol.{
  MachineIdentity, LifecycleEvent, Time, Duration, VaultReference, RegisterRequest,
  RegisterResponse, ProvisionRequest, ProvisionResponse, active, healthy, unset_health, Health,
  success, identity_discovered, identity_registered, actor_discovery, actor_control_plane,
  or_control_plane,
}
use mutandae.Protocol.Errors.{
  Error, Result, ok, err, bare, wrap, plain, prefix, require, errors_is, validation_text,
  conformance, provider_failure, no_snapshot,
}
use mutandae.Protocol.Iso8601.{parse_iso8601_duration}
use mutandae.Protocol.Validation.{validate_identity, is_ok, quote}
use mutandae.Lifecycle.Env.{Env, Call, Repository, Snapshot}
use mutandae.Lifecycle.Errors.{provider_operation_error}
use mutandae.Lifecycle.Rotate.{record_references}
use mutandae.Lifecycle.Store.{Draft, add_event, events_of, put_identity, empty_store}
use mutandae.Lifecycle.Store.Monad.{
  Store, Sys, Action, ask, gets, lift, modify, pure, raise, refuse, ◌>>=◌, ◌>>◌,
}
use mutandae.Lifecycle.Store.Snapshots.{persist, snapshot, restore}
use mutandae.Lifecycle.Vaults.{deliver_to_vault, mirror_to_common_vault}

-- A missing period and a wrong one are told apart.
abbrev register_period_failures : String → List String
register_period_failures period =
    if period == ""
    then "policy.renewal_period is required" ∷ []
    else require (is_ok (parse_iso8601_duration period))
        "policy.renewal_period is not a valid ISO-8601 duration"

unfoldable pub register_failures : RegisterRequest → List String
register_failures req =
    require (not (req.name == "")) "name is required"
    ++ (require (not (req.provider.provider == "")) "provider.provider is required"
        ++ (require (not (req.provider.provider_id == "")) "provider.provider_id is required"
            ++ (require (not (req.ownership.team == "")) "ownership.team is required"
                ++ register_period_failures req.policy.renewal_period)))

-- `registerRequestConforms`
abbrev register_conforms : List String → Result (Unit {0})
register_conforms [] = ok tt
register_conforms (e ∷ es) = err (wrap conformance (validation_text (e ∷ es)))

abbrev pub period_error : Result Duration → Result Duration
period_error (ok d) = ok d
period_error (err e) = err (wrap conformance ("renewal_period: " <> e.text))

-- The id is the name where none is given.
abbrev pub chosen_id : RegisterRequest → String
chosen_id req = if req.id == "" then req.name else req.id

abbrev pub duplicate : RegisterRequest → Error
duplicate req = plain ("identity " <> quote (chosen_id req) <> " already registered")

abbrev pub registered_identity : RegisterRequest → Duration → Time → MachineIdentity
registered_identity req period now = record {
  id = chosen_id req;
  name = req.name;
  display_name = req.display_name;
  namespace = req.namespace;
  environment = req.environment;
  provider = req.provider;
  ownership = req.ownership;
  policy = req.policy;
  credential = req.credential;
  state = active;
  health = healthy;
  expires_at = now + period;
  last_rotated_at = 0;
  created_at = now;
  updated_at = now;
  metadata = [];
}

abbrev pub registered_event : MachineIdentity → Time → String → Draft
registered_event identity now actor = record {
  identity_id = identity.id;
  at = now;
  event_type = identity_registered;
  summary = "Registered " <> identity.name <> " into governance";
  actor = actor;
  outcome = success;
  details = [];
  run_id = "";
}

-- `verb` is "Discovered" or "Provisioned".
abbrev pub discovered_event : MachineIdentity → Time → String → String → Draft
discovered_event identity now verb tenant = record {
  identity_id = identity.id;
  at = now;
  event_type = identity_discovered;
  summary = verb <> " " <> identity.name <> " in the " <> tenant <> " tenant";
  actor = actor_discovery;
  outcome = success;
  details = ("provider_id", identity.provider.provider_id) ∷ [];
  run_id = "";
}

abbrev default_health : Health → Health
default_health unset_health = healthy
default_health h = h

-- `fixIdentity`
unfoldable pub fix_identity : MachineIdentity → MachineIdentity
fix_identity identity = record identity {
  id = if identity.id == "" then identity.name else identity.id;
  health = default_health identity.health;
}

abbrev pub adopted : MachineIdentity → Time → MachineIdentity
adopted identity now = record identity { created_at = now; updated_at = now; state = active }

-- The error of a failed validation, behind a text of the caller.
abbrev pub conformant : String → Result (Unit {0}) → Result (Unit {0})
conformant p (ok _) = ok tt
conformant p (err e) = err (prefix p e)

abbrev pub register_reply : MachineIdentity → List LifecycleEvent → RegisterResponse
register_reply identity events = record { identity = identity; events = events }

-- The checks of the request, and that its id is new; the value is the renewal period.
unfoldable pub register_guards : {W : Type 0} → RegisterRequest → Action W Duration
unfolding register_failures
register_guards req = do
  lift (register_conforms (register_failures req))
  period ← lift (period_error (parse_iso8601_duration req.policy.renewal_period))
  existing ← gets (λ s. lookup (chosen_id req) s.identities)
  refuse (is_some existing) (duplicate req)
  pure period

module _ {W : Type 0} (E : Env W) where
  unfoldable pub register_rest : RegisterRequest → Time → Duration → Action W RegisterResponse
  register_rest req now period = do
    let identity = registered_identity req period now
    modify (put_identity identity.id identity)
    add_event E (registered_event identity now (or_control_plane req.requested_by))
    persist E
    events ← gets (λ s. events_of identity.id s.store)
    pure (register_reply identity events)

  -- The store is locked throughout, but for the checks of the request.
  unfoldable pub register : RegisterRequest → Time → Action W RegisterResponse
  unfolding register_guards register_rest
  register req now = register_guards req >>= register_rest req now

  unfoldable pub adopt : MachineIdentity → Time → Action W (Unit {0})
  adopt identity now =
      let identity' = adopted identity now in
      lift (
        conformant ("adapter returned non-conformant identity " <> quote identity.name <> ": ")
          (validate_identity identity'))
      >> modify (put_identity identity'.id identity')
      >> add_event E (discovered_event identity' now "Discovered" identity'.provider.provider)
      >> add_event E (registered_event identity' now actor_control_plane)

  unfoldable pub adopt_all : List MachineIdentity → Time → Action W (Unit {0})
  unfolding adopt
  adopt_all [] now = pure tt
  adopt_all (v ∷ vs) now = adopt (fix_identity v) now >> adopt_all vs now
