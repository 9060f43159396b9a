-- ===== src/Lifecycle/Use/Audited.antt =====
-- What `Use` answers, and that it is audited.
use mutandae.Prelude.{
  ℕ, String, ◌+◌, ◌≡◌, ◌≢◌, refl, ◌∙◌, ap, Bool, Bool-cases, inl, inr, true, false, none, some, [],
  ◌∷◌, ◌++◌, lookup, insert, ◌==◌, string_eq, if◌then◌else◌,
}
use mutandae.Protocol.{
  MachineIdentity, LifecycleEvent, VaultReference, UseRequest, UseResponse, Time, retired, state_eq,
  success, credential_used,
}
use mutandae.Protocol.Errors.{Error, Result, ok, err}
use mutandae.Lifecycle.Env.{Env, Vault}
use mutandae.Lifecycle.Store.{add_event, append_event, event_of, events_of}
use mutandae.Lifecycle.Store.Monad.{Sys, pure, ◌>>=◌}
use mutandae.Lifecycle.Store.Keeps.{Keeps-bind, Keeps-pure}
use mutandae.Lifecycle.Store.Laws.{Keeps-persist}
use mutandae.Lifecycle.Store.Snapshots.{persist}
use mutandae.Lifecycle.Use.{
  use_credential, use_guards, use_rest, use_reply, used_event, Read, read_of, read_credential,
}
use mutandae.Lifecycle.Use.Readings.{
  asked, Unavailable, ClusterSilent, Reading, from_native, from_cluster, no_secret,
  read_credential_lem,
}

-- The event tells of the use, by whom, and of the vault that gave the secret.
pub record Tells (req : UseRequest) (v : MachineIdentity) (now : Time) (ref : VaultReference)
    (cluster : Bool) (e : LifecycleEvent) : Type 0 where
  pub of : e.identity_id ≡ v.id
  pub kind : e.event_type ≡ credential_used
  pub by : e.actor ≡ (if req.requested_by == "" then "operator" else req.requested_by)
  pub at : e.at ≡ now
  pub outcome : e.outcome ≡ success
  pub key : lookup "key_id" e.details ≡ some v.credential.key_id
  pub vault :
      lookup "vault_kind" e.details ≡ (if cluster then some "cluster-mutandae-vault" else none)
  pub secret_name :
      lookup (if cluster then "common_vault_secret" else "vault_secret") e.details
      ≡ some ref.secret_name

module _ {W : Type 0} (E : Env W) (req : UseRequest) (now : Time) (s : Sys W)
    (v : MachineIdentity) where
  -- The reply has the secret and its reference, and one event was added to the trail.
  pub record Handed (cluster : Bool) (value : String) (ref : VaultReference) : Type 0 where
    pub replied :
        (use_credential E req now s).0
        ≡ ok (record { identity = v; key_id = v.credential.key_id; secret = value; vault = ref })
    pub event : LifecycleEvent
    pub tells : Tells req v now ref cluster event
    pub audited : (use_credential E req now s).1.store ≡ record s.store {
      next_event = s.store.next_event + 1;
      events = insert v.id (events_of v.id s.store ++ event ∷ []) s.store.events;
    }

  -- The answer of `Use`, by what the vaults answer.
  pub data Answered : Type 0 where
    native_secret :
        (vault : Vault W) (value : String) (ref : VaultReference) (w : W)
        → E.adapter.vault ≡ some vault
        → asked v req.version s vault s.world ≡ (ok (value, ref), w)
        → Handed false value ref
        → Answered
    cluster_secret :
        (vault : Vault W) (value : String) (ref : VaultReference) (w w' : W)
        → Unavailable v req.version s E.adapter.vault w
        → E.common_vault ≡ some vault
        → asked v req.version s vault w ≡ (ok (value, ref), w')
        → Handed true value ref
        → Answered
    failed :
        (e : Error) (w : W)
        → ((vault : Vault W) (found : String × VaultReference)
            → E.adapter.vault ≡ some vault
            → (asked v req.version s vault s.world).0 ≢ ok found)
        → ClusterSilent v req.version s E.adapter.vault E.common_vault
        → use_credential E req now s ≡ (err e, record s { world = w })
        → Answered

  Tells-event :
      (cluster : Bool) (value : String) (ref : VaultReference) (n : ℕ)
      → Tells req v now ref cluster
          (event_of n (used_event req v now (read_of cluster (value, ref))))
  unfolding lookup
  Tells-event true value ref n = record {
    of = refl;
    kind = refl;
    by = refl;
    at = refl;
    outcome = refl;
    key = refl;
    vault = refl;
    secret_name = refl;
  }
  Tells-event false value ref n = record {
    of = refl;
    kind = refl;
    by = refl;
    at = refl;
    outcome = refl;
    key = refl;
    vault = elim (Bool-cases (ref.url == "")) [ inl e ↦ rw e refl | inr e ↦ rw e refl ];
    secret_name = refl;
  }

  -- What follows the reading of the secret.
  abbrev handing : Read → Sys W → Result UseResponse × Sys W
  handing read t =
      (add_event E (used_event req v now read) >>= λ _. persist E >>= λ _. pure (use_reply v read))
        t

  store-handing :
      (read : Read) (w : W)
      → (handing read (record s { world = w })).1.store
        ≡ append_event (used_event req v now read) s.store
  unfolding add_event
  store-handing read w =
      (Keeps-bind {P = λ st. st ≡ append_event (used_event req v now read) s.store} (persist E) _
          (Keeps-persist E) (λ _. Keeps-pure (use_reply v read))).at
        _ refl

  module _ (saves : (t : Sys W) → (persist E t).0 ≡ ok tt) where
    reply-handing :
        (read : Read) (w : W) → (handing read (record s { world = w })).0 ≡ ok (use_reply v read)
    unfolding add_event
    reply-handing read w = rw (saves _) refl

    handed :
        (cluster : Bool) (value : String) (ref : VaultReference) (w : W)
        → use_credential E req now s
          ≡ handing (read_of cluster (value, ref)) (record s { world = w })
        → Handed cluster value ref
    handed cluster value ref w h = record {
      replied = ap (λ z. z.0) h ∙ reply-handing (read_of cluster (value, ref)) w;
      event =
          event_of (s.store.next_event + 1) (used_event req v now (read_of cluster (value, ref)));
      tells = Tells-event cluster value ref (s.store.next_event + 1);
      audited = ap (λ z. z.1.store) h ∙ store-handing (read_of cluster (value, ref)) w;
    }

    answered :
        (r : Result Read × Sys W)
        → Reading v req.version s E.adapter.vault E.common_vault r
        → read_credential E.adapter.vault E.common_vault v req.version s ≡ r
        → use_credential E req now s
          ≡ (read_credential E.adapter.vault E.common_vault v req.version >>= handing) s
        → Answered
    answered r (from_native vault (value, ref) w has asks) h p =
        native_secret vault value ref w has asks (handed false value ref w (p ∙ (rw h refl)))
    answered r (from_cluster vault (value, ref) w w' off has asks) h p =
        cluster_secret vault value ref w w' off has asks
          (handed true value ref w' (p ∙ (rw h refl)))
    answered r (no_secret e w quiet silent) h p = failed e w quiet silent (p ∙ (rw h refl))

    -- Use of a stored identity that is not retired, if saving succeeds: where the provider's
    -- vault gives a secret, the reply has it with its reference; where there is no such vault, or
    -- it does not support reading, and the cluster's vault gives one, the reply has that; each
    -- time all that is written is one event of this use at the end of the identity's trail, which
    -- names the requester, the key, the secret's name and, by its kind, the cluster's vault where
    -- that gave it. Otherwise Use fails, neither vault has given a secret when it was asked, and
    -- nothing is written.
    pub use_lem : lookup req.id s.identities ≡ some v → (v.state == retired) ≡ false → Answered
    unfolding use_credential use_guards use_rest
    use_lem found live =
        answered (read_credential E.adapter.vault E.common_vault v req.version s)
          (read_credential_lem v req.version s E.adapter.vault E.common_vault) refl
          (simp (found, live))
