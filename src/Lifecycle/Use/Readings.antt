-- ===== src/Lifecycle/Use/Readings.antt =====
-- Where the secret comes from that `Use` reads.
use mathlib.Core.Path.{subst}
use mutandae.Prelude.{
  String, ◌≡◌, ◌≢◌, refl, sym, ◌∙◌, true, false, Bool-cases, inl, inr, Option, none, some,
}
use mutandae.Protocol.{MachineIdentity, VaultReference}
use mutandae.Protocol.Errors.{Error, Result, ok, err, errors_is, vault_unsupported}
use mutandae.Lifecycle.Env.{Vault}
use mutandae.Lifecycle.Store.Monad.{Sys}
use mutandae.Lifecycle.Use.{
  Read, read_of, read_credential, read_common, settle_common, settle_native,
}

module _ {W : Type 0} (v : MachineIdentity) (version : String) (s : Sys W) where
  -- What a vault answers about the identity's current key.
  abbrev pub asked : Vault W → W → Result (String × VaultReference) × W
  asked vault w = vault.read_secret v v.credential.key_id version w

  -- There is no provider's vault, or it does not support reading; `w` is the world behind that.
  pub data Unavailable (native : Option (Vault W)) (w : W) : Type 0 where
    no_vault : native ≡ none → w ≡ s.world → Unavailable native w
    unsupported :
        (vault : Vault W) (e : Error)
        → native ≡ some vault
        → asked vault s.world ≡ (err e, w)
        → errors_is e vault_unsupported ≡ true
        → Unavailable native w

  -- The cluster's vault, when it is asked, gives no secret.
  abbrev pub ClusterSilent : Option (Vault W) → Option (Vault W) → Type 0
  ClusterSilent native common =
      (vault : Vault W) (found : String × VaultReference) (w : W)
      → Unavailable native w
      → common ≡ some vault
      → (asked vault w).0 ≢ ok found

  -- The provider's vault gives the secret, or the cluster's where that of the provider is not
  -- available, or neither does.
  pub data Reading (native common : Option (Vault W)) : Result Read × Sys W → Type 0 where
    from_native :
        (vault : Vault W) (found : String × VaultReference) (w : W)
        → native ≡ some vault
        → asked vault s.world ≡ (ok found, w)
        → Reading native common (ok (read_of false found), record s { world = w })
    from_cluster :
        (vault : Vault W) (found : String × VaultReference) (w w' : W)
        → Unavailable native w
        → common ≡ some vault
        → asked vault w ≡ (ok found, w')
        → Reading native common (ok (read_of true found), record s { world = w' })
    no_secret :
        (e : Error) (w : W)
        → ((vault : Vault W) (found : String × VaultReference)
            → native ≡ some vault
            → (asked vault s.world).0 ≢ ok found)
        → ClusterSilent native common
        → Reading native common (err e, record s { world = w })

  -- An answer does not depend on how the vault is named.
  same_answer :
      (vault other : Vault W) (w u : W) (r : Result (String × VaultReference) × W)
      → some vault ≡ some other
      → w ≡ u
      → asked vault w ≡ r
      → asked other u ≡ r
  same_answer vault other w u r p q h =
      let same : vault ≡ other = cc p in
      subst (λ x. asked x u ≡ r) same (subst (λ x. asked vault x ≡ r) q h)

  Unavailable-unique :
      (native : Option (Vault W)) (w u : W) → Unavailable native w → Unavailable native u → w ≡ u
  Unavailable-unique native w u (no_vault p q) (no_vault p' q') = q ∙ sym q'
  Unavailable-unique native w u (no_vault p q) (unsupported b e h a o) = cc (p, h)
  Unavailable-unique native w u (unsupported b e h a o) (no_vault p q) = cc (p, h)
  Unavailable-unique native w u (unsupported b e h a o) (unsupported c f k d n) =
      let same = same_answer b c s.world s.world (err e, w) (sym h ∙ k) refl a in cc (same, d)

  module _ (native : Option (Vault W)) where
    cluster_answer :
        (vault : Vault W) (w : W) (r : Result (String × VaultReference) × W)
        → Unavailable native w
        → ((other : Vault W) (found : String × VaultReference)
            → native ≡ some other
            → (asked other s.world).0 ≢ ok found)
        → asked vault w ≡ r
        → Reading native (some vault) ((settle_common r.0) (record s { world = r.1 }))
    unfolding settle_common
    cluster_answer vault w (ok found, w') off quiet h = from_cluster vault found w w' off refl h
    cluster_answer vault w (err e, w') off quiet h = no_secret _ w' quiet silent
      where
        silent : ClusterSilent native (some vault)
        silent other found u off' p q =
            let same =
              same_answer vault other w u (err e, w') p (Unavailable-unique native w u off off')
                h in
            cc (same, q)

    cluster :
        (common : Option (Vault W)) (text : String) (w : W)
        → Unavailable native w
        → ((other : Vault W) (found : String × VaultReference)
            → native ≡ some other
            → (asked other s.world).0 ≢ ok found)
        → Reading native common (read_common common v version text (record s { world = w }))
    unfolding read_common
    cluster none text w off quiet = no_secret _ w quiet (λ other found u off' p. cc p)
    cluster (some vault) text w off quiet = cluster_answer vault w (asked vault w) off quiet refl

  native_answer :
      (vault : Vault W) (common : Option (Vault W)) (r : Result (String × VaultReference) × W)
      → asked vault s.world ≡ r
      → Reading (some vault) common (settle_native common v version r.0 (record s { world = r.1 }))
  unfolding settle_native
  native_answer vault common (ok found, w) h = from_native vault found w refl h
  native_answer vault common (err e, w) h = elim (Bool-cases (errors_is e vault_unsupported)) [
    | inl off ↦ rw off (cluster (some vault) common e.text w (unsupported vault e refl h off) quiet)
    | inr real ↦ rw real (no_secret _ w quiet (silent real))
  ]
    where
      quiet :
          (other : Vault W) (found : String × VaultReference)
          → some vault ≡ some other
          → (asked other s.world).0 ≢ ok found
      quiet other found p q =
          let same = same_answer vault other s.world s.world (err e, w) p refl h in cc (same, q)

      silent : errors_is e vault_unsupported ≡ false → ClusterSilent (some vault) common
      silent real other found u (no_vault p q) c a = cc p
      silent real other found u (unsupported b f k d o) c a =
          let same = same_answer vault b s.world s.world (err e, w) k refl h in
          let p : e ≡ f = cc (same, d) in cc (p, real, o)

  pub read_credential_lem :
      (native common : Option (Vault W))
      → Reading native common (read_credential native common v version s)
  unfolding read_credential
  read_credential_lem none none =
      no_secret _ s.world (λ vault found p. cc p) (λ vault found u off p. cc p)
  read_credential_lem none (some vault) =
      cluster none (some vault) "<nil>" s.world (no_vault refl refl) (λ other found p. cc p)
  read_credential_lem (some vault) common = native_answer vault common (asked vault s.world) refl
