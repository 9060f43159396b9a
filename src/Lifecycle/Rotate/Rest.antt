-- ===== src/Lifecycle/Rotate/Rest.antt =====
-- The states of the stored identities behind `Rotate`.
use mutandae.Prelude.{String, ◌≡◌, inl, refl, sym, ◌∙◌}
use mutandae.Protocol.{MachineIdentity, RotateRequest, Time, active}
use mutandae.Protocol.Errors.{Result, ok, err}
use mutandae.Lifecycle.Env.{Env}
use mutandae.Lifecycle.Rotate.{rotate, renewing_of, failed_of}
use mutandae.Lifecycle.Rotate.Induction.{Outlasts, rotate_keeps}
use mutandae.Lifecycle.Rotate.Section.{after_answer, renewal}
use mutandae.Lifecycle.Store.{put_identity}
use mutandae.Lifecycle.Store.AtRest.{Settled, SettledBut, AtRest, Holds-put}
use mutandae.Lifecycle.Store.Monad.{Store, Sys}

AtRest-Outlasts : (id : String) → Outlasts AtRest id
AtRest-Outlasts id = record {
  events = λ d p q st h. record { at = h.at };
  puts = λ v own act well st h.
      Holds-put v.id v st h (record { own_id = refl; state_settled = inl act }) (λ j u ne k. k);
}

module _ (req : RotateRequest) (now : Time) (v : MachineIdentity) (own : v.id ≡ req.id) where
  settled_again :
      (st : Store) (k : String) (u : MachineIdentity)
      → k ≡ req.id
      → u.id ≡ k
      → u.state ≡ active
      → AtRest st
      → AtRest (record st {
        identities = (put_identity k u (put_identity v.id (renewing_of v) st)).identities;
      })
  settled_again st k u here same act h = record {
    at =
        (Holds-put {P = SettledBut req.id} {Q = Settled} k u (put_identity v.id (renewing_of v) st)
          (Holds-put v.id (renewing_of v) st h (λ ne. absurd (ne own)) (λ j x ne p _. p))
          (record { own_id = same; state_settled = inl act })
          (λ j x ne p. p (λ e. ne (e ∙ sym here)))).at;
  }

  AtRest-after_answer :
      (r : Result MachineIdentity) (st : Store) → AtRest st → AtRest (after_answer req now v r st)
  AtRest-after_answer (ok view) st h = record {
    at = (settled_again st req.id (renewal req now v view) refl refl refl h).at;
  }
  AtRest-after_answer (err e) st h = record {
    at = (settled_again st v.id (failed_of v) own refl refl h).at;
  }

-- Whatever the provider, the vaults and the database answer.
pub rotate-AtRest :
    {W : Type 0} (E : Env W) (req : RotateRequest) (now : Time) (s : Sys W)
    → AtRest s.store
    → AtRest (rotate E req now s).1.store
rotate-AtRest E req now s h =
    rotate_keeps E req now (AtRest-Outlasts req.id) s h
      λ v found act r. AtRest-after_answer req now v (h.at req.id v found).own_id r s.store h
