-- ===== src/Lifecycle/Integration/Operations/Holding.antt =====
-- The operations of a session keep the manager's invariant.
use mutandae.Prelude.{
  String, ◌≡◌, refl, ap, ◌∙◌, Bool-cases, inl, inr, Option, none, some, List, ◌&&◌, not, is_some,
  Dict, lookup, insert, delete, All-insert, All-lookup, length-insert_known, if◌then◌else◌,
}
use mutandae.Protocol.{
  Time, AzureApplication, AzureCredential, AzureSecretResult, VaultReference,
  AzureSecretCreateRequest, AzureSecretReadRequest, AzureSecretInvalidateRequest,
}
use mutandae.Protocol.Errors.{Error, Result, ok, err}
use mutandae.Lifecycle.Integration.{IntegrationSession, Service, IntegrationManager}
use mutandae.Lifecycle.Integration.Held.{Owned, Held}
use mutandae.Lifecycle.Integration.Sessions.Holding.{Held-dropped}
use mutandae.Lifecycle.Integration.Sessions.Cases.{session_cases}
use mutandae.Lifecycle.Integration.Operations.{
  put_refs, put_new_ref, list_reply, application_made, secret_made, secret_got, secret_dropped,
  view_body, list_body, create_body, secret_body, read_body, invalidate_body, in_session,
}
use mutandae.Lifecycle.Integration.Receipts.{
  Body, vault_ref_key, resolved_read, resolved_invalidate,
}

module _ {W : Type 0} where
  Held-put_refs :
      (s : IntegrationSession W) (refs : Dict VaultReference) (m : IntegrationManager W)
      → lookup s.id m.sessions ≡ some s
      → Held m
      → Held (put_refs s refs m)
  unfolding put_refs
  Held-put_refs s refs m found inv =
      let o = All-lookup Owned s.id s m.sessions inv.owned found in
      let s' = record s { vault_refs = refs } in
      let o' : Owned s.id s' = record {
        own = refl;
        shown = o.shown;
        until = o.until;
        ascii = o.ascii;
      } in
      record {
        few = rw (length-insert_known s.id s' s m.sessions found) inv.few;
        owned = All-insert Owned s.id s' m.sessions o' inv.owned;
      }

  Held-put_new_ref :
      (s : IntegrationSession W) (key : String) (ref : Option VaultReference)
      (m : IntegrationManager W)
      → lookup s.id m.sessions ≡ some s
      → Held m
      → Held (put_new_ref s key ref m)
  unfolding put_new_ref
  Held-put_new_ref s key none m found inv = inv
  Held-put_new_ref s key (some ref) m found inv =
      Held-put_refs s (insert key ref s.vault_refs) m found inv

  -- A body keeps the invariant, where its session is stored.
  abbrev pub Holding : {A : Type 0} → Body W A → Type 0
  Holding body =
      (s : IntegrationSession W) (m : IntegrationManager W) (w : W)
      → lookup s.id m.sessions ≡ some s
      → Held m
      → Held (body s m w).1.0

  pub view_body-Holding : Holding view_body
  unfolding view_body
  view_body-Holding s m w found inv = inv

  module _ (S : Service W) (now : Time) where
    pub list_body-Holding : Holding (list_body S now)
    unfolding list_body list_reply
    list_body-Holding s m w found inv = after (s.client.list_applications w)
      where
        after : (r : Result (List AzureApplication) × W) → Held (list_reply S s now m r).1.0
        after (ok a, w') = inv
        after (err e, w') = inv

    pub create_body-Holding : (name : String) → Holding (create_body S now name)
    unfolding create_body application_made
    create_body-Holding name s m w found inv = after (s.client.create_application name w)
      where
        after : (r : Result AzureApplication × W) → Held (application_made S now m r).1.0
        after (ok a, w') = inv
        after (err e, w') = inv

    pub secret_body-Holding : (req : AzureSecretCreateRequest) → Holding (secret_body S now req)
    unfolding secret_body secret_made
    secret_body-Holding req s m w found inv =
        elim (Bool-cases (req.store_in_vault && not (is_some s.vault))) [
          | inl e ↦ rw e inv
          | inr e ↦
              rw e (
                after (s.client.create_secret req (if req.store_in_vault then s.vault else none) w))
        ]
      where
        after : (r : Result AzureSecretResult × W) → Held (secret_made S s req now m r).1.0
        after (ok a, w') =
            Held-put_new_ref s (vault_ref_key req.application_object_id a.credential.key_id) a.vault
              m found inv
        after (err e, w') = inv

    secret_got-Held :
        (s : IntegrationSession W) (req : AzureSecretReadRequest) (m : IntegrationManager W)
        (r : Result (AzureSecretResult × VaultReference) × W)
        → lookup s.id m.sessions ≡ some s
        → Held m
        → Held (secret_got S s req now m r).1.0
    unfolding secret_got
    secret_got-Held s req m (ok (a, ref), w) found inv =
        Held-put_new_ref s (vault_ref_key req.application_object_id req.key_id) (some ref) m found
          inv
    secret_got-Held s req m (err e, w) found inv = inv

    pub read_body-Holding : (req : AzureSecretReadRequest) → Holding (read_body S now req)
    unfolding read_body
    read_body-Holding req s m w found inv =
        let req' = resolved_read s.vault_refs req in
        secret_got-Held s req' m (s.client.read_secret req' w) found inv

    secret_dropped-Held :
        (s : IntegrationSession W) (req : AzureSecretInvalidateRequest) (m : IntegrationManager W)
        (r : (AzureCredential × Option Error) × W)
        → lookup s.id m.sessions ≡ some s
        → Held m
        → Held (secret_dropped S s req now m r).1.0
    unfolding secret_dropped
    secret_dropped-Held s req m ((c, some e), w) found inv = inv
    secret_dropped-Held s req m ((c, none), w) found inv =
        Held-put_refs s (delete (vault_ref_key req.application_object_id req.key_id) s.vault_refs) m
          found inv

    pub invalidate_body-Holding :
        (req : AzureSecretInvalidateRequest) → Holding (invalidate_body S now req)
    unfolding invalidate_body
    invalidate_body-Holding req s m w found inv =
        let req' = resolved_invalidate s.vault_refs req in
        secret_dropped-Held s req' m (s.client.invalidate_secret req' w) found inv

  pub Held-in_session :
      {A : Type 0} (id csrf : String) (now : Time) (body : Body W A) (m : IntegrationManager W)
      (w : W)
      → Holding body
      → Held m
      → Held (in_session id csrf now body (m, w)).1.0
  unfolding in_session
  Held-in_session id csrf now body m w holding inv = elim (session_cases id csrf now m w) [
    | inl (s, a) ↦
        let own = (All-lookup Owned id s m.sessions inv.owned a.found).own in
        rw a.opened (holding s m w (ap (λ k. lookup k m.sessions) own ∙ a.found) inv)
    | inr (inl (s, x)) ↦ rw x.dropped (Held-dropped id m inv)
    | inr (inr (e, r)) ↦ rw r.refused inv
  ]
