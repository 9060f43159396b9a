-- ===== src/Lifecycle/Integration/Operations.antt =====
-- The operations of a session in internal/lifecycle/integration.go: `SessionView`, `ListApplications`,
-- `CreateApplication`, `CreateSecret`, `ReadSecret`, `InvalidateSecret`, and the receipt of each.
-- Go returns a value, a receipt and an error together; a zero value is `none` here.
pub mod Holding
use mutandae.Prelude.{
  ℕ, String, Bool, true, false, not, ◌&&◌, Option, none, some, List, [], ◌∷◌, ◌++◌, Dict, lookup,
  insert, delete, is_some, get_or, map, ◌==◌, string_eq, if◌then◌else◌, ◌<>◌,
}
use mutandae.Protocol.{
  Time, EventType, Metadata, VaultReference, AzureIntegrationSession, AzureIntegrationEvent,
  AzureApplication, AzureCredential, AzureSecretResult, OperationReceipt, AzureSecretCreateRequest,
  AzureSecretReadRequest, AzureSecretInvalidateRequest, success, integration_connected,
  application_created, secret_created, secret_read, secret_invalidated,
}
use mutandae.Protocol.Errors.{Error, Result, ok, err, plain, prefix}
use mutandae.Lifecycle.Redaction.{validate_integration_event}
use mutandae.Lifecycle.Integration.{
  Client, IntegrationSession, Service, IntegrationManager, random_id,
}
use mutandae.Lifecycle.Integration.Sessions.{Live, session}
use mutandae.Lifecycle.Integration.Receipts.{
  Reply, failed, Receipted, with_receipt, vault_ref_key, bool_text, vault_details,
  remembered_version, resolved_read, resolved_invalidate, attach_refs, event_for, receipt_for, Body,
}

module _ {W : Type 0} where
  -- The references are written through the pointer to the session, which no other operation has
  -- removed in between.
  unfoldable pub put_refs :
      IntegrationSession W → Dict VaultReference → IntegrationManager W → IntegrationManager W
  put_refs s refs m = record m {
    sessions = insert s.id (record s { vault_refs = refs }) m.sessions;
  }

  put_new_ref :
      IntegrationSession W
      → String
      → Option VaultReference
      → IntegrationManager W
      → IntegrationManager W
  unfolding put_refs
  put_new_ref s key none m = m
  put_new_ref s key (some ref) m = put_refs s (insert key ref s.vault_refs) m

  published : AzureIntegrationEvent → Result (Unit {0}) × W → Receipted W
  published event (ok done, w) = ((some (receipt_for true event), none), w)
  published event (err e, w) = (
    (
      some (receipt_for false event),
      some (prefix "Azure operation succeeded but redacted event publication failed: " e),
    ),
    w,
  )

  module _ (S : Service W) where
    validated : AzureIntegrationEvent → Result (Unit {0}) → W → Receipted W
    unfolding published
    validated event (ok done) w = published event (S.publish event w)
    validated event (err e) w = ((none, some e), w)

    correlated : EventType → String → Metadata → Time → String → Result String × W → Receipted W
    unfolding validated event_for
    correlated event_type application details now id (ok correlation, w) =
        let event = event_for event_type application details now id correlation in
        validated event (validate_integration_event event) w
    correlated event_type application details now id (err e, w) = ((none, some e), w)

    identified : EventType → String → Metadata → Time → Result String × W → Receipted W
    unfolding correlated
    identified event_type application details now (ok id, w) =
        correlated event_type application details now id (random_id S "op" w)
    identified event_type application details now (err e, w) = ((none, some e), w)

    unfoldable pub receipt : EventType → String → Metadata → Time → W → Receipted W
    unfolding identified
    receipt event_type application details now w =
        identified event_type application details now (random_id S "evt" w)

    list_reply :
        IntegrationSession W
        → Time
        → IntegrationManager W
        → Result (List AzureApplication) × W
        → Reply (List AzureApplication) × Live W
    list_reply s now m (err e, w) = (failed e, (m, w))
    list_reply s now m (ok applications, w) =
        with_receipt (map (attach_refs s.vault_refs) applications) m
          (receipt integration_connected "" (("operation", "list_applications") ∷ []) now w)

    application_made :
        Time → IntegrationManager W → Result AzureApplication × W → Reply AzureApplication × Live W
    application_made now m (err e, w) = (failed e, (m, w))
    application_made now m (ok application, w) = with_receipt application m (
        receipt application_created application.object_id
          (("display_name", application.display_name) ∷ []) now w)

    secret_made :
        IntegrationSession W
        → AzureSecretCreateRequest
        → Time
        → IntegrationManager W
        → Result AzureSecretResult × W
        → Reply AzureSecretResult × Live W
    unfolding put_new_ref
    secret_made s req now m (err e, w) = (failed e, (m, w))
    secret_made s req now m (ok result, w) =
        with_receipt result
          (put_new_ref s (vault_ref_key req.application_object_id result.credential.key_id)
            result.vault m)
          (receipt secret_created req.application_object_id
            (("key_id", result.credential.key_id)
              ∷ ("stored_in_vault", bool_text (is_some result.vault))
              ∷ vault_details result.vault)
            now w)

    secret_got :
        IntegrationSession W
        → AzureSecretReadRequest
        → Time
        → IntegrationManager W
        → Result (AzureSecretResult × VaultReference) × W
        → Reply AzureSecretResult × Live W
    unfolding put_new_ref
    secret_got s req now m (err e, w) = (failed e, (m, w))
    secret_got s req now m (ok (result, ref), w) =
        with_receipt (record result { vault = some ref })
          (put_new_ref s (vault_ref_key req.application_object_id req.key_id) (some ref) m)
          (receipt secret_read req.application_object_id
            (("key_id", req.key_id) ∷ vault_details (some ref)) now w)

    secret_dropped :
        IntegrationSession W
        → AzureSecretInvalidateRequest
        → Time
        → IntegrationManager W
        → (AzureCredential × Option Error) × W
        → Reply AzureCredential × Live W
    secret_dropped s req now m ((credential, some e), w) =
        (record { value = some credential; receipt = none; error = some e }, (m, w))
    secret_dropped s req now m ((credential, none), w) =
        with_receipt credential
          (put_refs s (delete (vault_ref_key req.application_object_id req.key_id) s.vault_refs) m)
          (receipt secret_invalidated req.application_object_id
            (("key_id", req.key_id)
              ∷ ("vault_disabled", bool_text (is_some credential.vault))
              ∷ vault_details credential.vault)
            now w)

    unfoldable pub list_body : Time → Body W (List AzureApplication)
    unfolding list_reply
    list_body now s m w = list_reply s now m (s.client.list_applications w)

    unfoldable pub create_body : Time → String → Body W AzureApplication
    unfolding application_made
    create_body now display_name s m w =
        application_made now m (s.client.create_application display_name w)

    unfoldable pub secret_body : Time → AzureSecretCreateRequest → Body W AzureSecretResult
    unfolding secret_made
    secret_body now req s m w =
        if req.store_in_vault && not (is_some s.vault)
        then (failed (plain "store_in_vault requires a configured Key Vault"), (m, w))
        else secret_made s req now m
            (s.client.create_secret req (if req.store_in_vault then s.vault else none) w)

    unfoldable pub read_body : Time → AzureSecretReadRequest → Body W AzureSecretResult
    unfolding secret_got
    read_body now req s m w =
        let req' = resolved_read s.vault_refs req in
        secret_got s req' now m (s.client.read_secret req' w)

    unfoldable pub invalidate_body : Time → AzureSecretInvalidateRequest → Body W AzureCredential
    unfolding secret_dropped
    invalidate_body now req s m w =
        let req' = resolved_invalidate s.vault_refs req in
        secret_dropped s req' now m (s.client.invalidate_secret req' w)

  unfoldable pub view_body : Body W AzureIntegrationSession
  view_body s m w = (record { value = some s.public_view; receipt = none; error = none }, (m, w))

  abbrev pub with_session :
      {A : Type 0} → Result (IntegrationSession W) × Live W → Body W A → Reply A × Live W
  with_session (err e, l) body = (failed e, l)
  with_session (ok s, (m, w)) body = body s m w

  unfoldable pub in_session :
      {A : Type 0} → String → String → Time → Body W A → Live W → Reply A × Live W
  in_session id csrf now body l = with_session (session id csrf now l) body

  unfoldable pub session_view :
      String → String → Time → Live W → Reply AzureIntegrationSession × Live W
  unfolding view_body in_session
  session_view id csrf now = in_session id csrf now view_body

  module _ (S : Service W) (id csrf : String) (now : Time) where
    unfoldable pub list_applications : Live W → Reply (List AzureApplication) × Live W
    list_applications = in_session id csrf now (list_body S now)

    unfoldable pub create_application : String → Live W → Reply AzureApplication × Live W
    create_application display_name = in_session id csrf now (create_body S now display_name)

    unfoldable pub create_secret :
        AzureSecretCreateRequest → Live W → Reply AzureSecretResult × Live W
    create_secret req = in_session id csrf now (secret_body S now req)

    unfoldable pub read_secret : AzureSecretReadRequest → Live W → Reply AzureSecretResult × Live W
    read_secret req = in_session id csrf now (read_body S now req)

    unfoldable pub invalidate_secret :
        AzureSecretInvalidateRequest → Live W → Reply AzureCredential × Live W
    invalidate_secret req = in_session id csrf now (invalidate_body S now req)
