-- ===== src/Lifecycle/Retire/Answered.antt =====
-- What `Retire` leaves behind, from the request to the answer.
use mathlib.Core.Path.{subst}
use mathlib.Core.List.{append_assoc}
use mutandae.Prelude.{
  ℕ, ◌<>◌, ◌==◌, ◌≡◌, refl, sym, ◌∙◌, ap, ◌+◌, arith, Bool, true, false, not, ◌&&◌, ◌||◌,
  if◌then◌else◌, string_eq, eq_iff, eq_refl, lookup, lookup-insert, some, List, [], ◌∷◌, ◌++◌, All,
  All-append,
}
use mutandae.Protocol.{
  MachineIdentity, LifecycleEvent, RetireRequest, RetireResponse, Time, active, credential_revoked,
  retired, attention, identity_retired, success,
}
use mutandae.Protocol.Errors.{Error, Result, ok, err}
use mutandae.Protocol.Transitions.{can_transition}
use mutandae.Protocol.Validation.{validate_retire_request}
use mutandae.Lifecycle.Env.{Env}
use mutandae.Lifecycle.Errors.{
  provider_operation_error, Reported, provider_operation_error-Reported,
}
use mutandae.Lifecycle.Retire.{
  retire, retire_apply, retire_dry_run, retire_guards, retire_reply, retire_rest, retired_event,
  retired_of, retirement_section, settle_retirement,
}
use mutandae.Lifecycle.Retire.Guards.{retire_guards-Guarded}
use mutandae.Lifecycle.Retire.Induction.{Keeps-revoke_copies}
use mutandae.Lifecycle.Store.{add_event, append_event, event_id, event_of, events_of, put_identity}
use mutandae.Lifecycle.Store.Guarded.{Guarded-keeps}
use mutandae.Lifecycle.Store.Keeps.{Keeps, Keeps-bind, Keeps-gets, Keeps-pure}
use mutandae.Lifecycle.Store.Laws.{Keeps-persist, store-plan}
use mutandae.Lifecycle.Store.Monad.{Store, Sys, Action, ◌>>=◌, ◌>>◌, pure, modify}
use mutandae.Lifecycle.Store.Snapshots.{persist}
use mutandae.Lifecycle.Store.Tables.{events_of-append_event}
use mutandae.Lifecycle.Store.Yields.{Yields-bind, Yields-keeps, Yields-pure, Yields→Keeps}
use mutandae.Lifecycle.Vaults.Keeps.{Absorbs}

module _ (req : RetireRequest) (now : Time) (view : MachineIdentity) where
  abbrev pub retirement : MachineIdentity
  retirement = retired_of req.id view now

  -- The store behind the critical section.
  abbrev pub after_retirement : Store → Store
  after_retirement st =
      append_event (retired_event req retirement now) (put_identity req.id retirement st)

  -- The provider's view under the store's id, with the state and the health of a retired identity.
  abbrev pub marked : MachineIdentity
  marked = record view { id = req.id; state = retired; health = attention; updated_at = now }

  -- What the trail says of the retirement.
  abbrev pub notice : ℕ → LifecycleEvent
  notice number = record {
    id = event_id number;
    identity_id = req.id;
    event_type = identity_retired;
    summary = "Retired " <> view.name <> " (" <> req.reason <> ")";
    actor = if req.requested_by == "" then "operator" else req.requested_by;
    outcome = success;
    at = now;
    correlation_id = "";
    run_id = "";
    details = [];
  }

  -- Under the id there is the retired identity, and the trail tells it, and then only what was
  -- revoked.
  pub record Retired (old st : Store) : Type 0 where
    pub stored : lookup req.id st.identities ≡ some marked
    pub revocations : List LifecycleEvent
    pub trail :
        events_of req.id st ≡ events_of req.id old ++ notice (old.next_event + 1) ∷ revocations
    pub revoked : All (λ e. e.event_type ≡ credential_revoked) revocations

  module _ (old : Store) where
    Retired-start : Retired old (after_retirement old)
    Retired-start = record {
      stored = simp (lookup-insert, eq_refl);
      revocations = [];
      trail = simp (lookup-insert, eq_refl);
      revoked = tt;
    }

    Retired-Absorbs : Absorbs (Retired old) req.id credential_revoked
    Retired-Absorbs d here kind st h = record {
      stored = h.stored;
      revocations = h.revocations ++ event_of (st.next_event + 1) d ∷ [];
      trail =
          events_of-append_event req.id st d
          ∙ (rw ((eq_iff d.identity_id req.id).1 here) (
              ap (λ es. es ++ event_of (st.next_event + 1) d ∷ []) h.trail
              ∙ append_assoc (events_of req.id old) (notice (old.next_event + 1) ∷ h.revocations)
                  _));
      revoked = All-append _ h.revocations _ h.revoked (kind, tt);
    }

module _ {W : Type 0} (E : Env W) (req : RetireRequest) (now : Time) where
  Keeps-retire_rest :
      {P : Store → Type 0} (u : MachineIdentity)
      → u.id ≡ req.id
      → Absorbs P req.id credential_revoked
      → Keeps P (retire_rest E now u)
  unfolding retire_rest
  Keeps-retire_rest u own absorbs =
      Keeps-bind _ _ (Keeps-revoke_copies E u now (λ d p q. absorbs d (p ∙ own) q)) λ _.
        Keeps-bind {A = List LifecycleEvent} _ _ (Keeps-gets (λ s. events_of u.id s.store))
          λ events. Keeps-pure (retire_reply u events)

  -- What follows the writes of the critical section.
  Keeps-section_end :
      {P : Store → Type 0} (u : MachineIdentity)
      → u.id ≡ req.id
      → Absorbs P req.id credential_revoked
      → Keeps P ((persist E >>= λ _. pure u) >>= retire_rest E now)
  Keeps-section_end {P} u own absorbs = Yields→Keeps {Q = λ _. Unit} _ (
      Yields-bind {Q = λ x. x ≡ u} _ _
        (Yields-bind {Q = λ _. Unit} _ _ (Yields-keeps _ (Keeps-persist E) (λ _. tt))
          λ _ _. Yields-pure u refl)
        λ x same.
          Yields-keeps _ (Keeps-retire_rest x (subst (λ y. y.id ≡ req.id) (sym same) own) absorbs)
            (λ _. tt))

  module _ (s : Sys W) (v : MachineIdentity) where
    -- An active identity passes the guards.
    retire_guards_pass :
        validate_retire_request req ≡ ok tt
        → req.dry_run ≡ false
        → req.confirm ≡ true
        → lookup req.id s.identities ≡ some v
        → v.state ≡ active
        → retire_guards req s ≡ (ok v, s)
    unfolding retire_guards can_transition
    retire_guards_pass valid wet sure found act = simp (valid, wet, sure, found, act)

    Retired-answer :
        (view : MachineIdentity) (w : W)
        → Retired req now view s.store
            ((settle_retirement E req now (ok view) >>= retire_rest E now)
              (record s { world = w })).1.store
    unfolding settle_retirement add_event
    Retired-answer view w =
        (Keeps-section_end (retirement req now view) refl (Retired-Absorbs req now view s.store)).at
          ((put_section view (record s { world = w })).1) (Retired-start req now view s.store)
      where
        put_section : MachineIdentity → Action W Unit
        put_section view =
            modify (put_identity req.id (retirement req now view))
            >> add_event E (retired_event req (retirement req now view) now)

    failed_answer :
        (x : Error) (w : W)
        → (settle_retirement E req now (err x) >>= retire_rest E now) (record s { world = w })
          ≡ (err (provider_operation_error x), record s { world = w })
    unfolding settle_retirement
    failed_answer x w = refl

    dispatched :
        (b : Bool)
        → b ≡ false
        → (if b then retire_dry_run E v else retire_apply E req now v) s
          ≡ retire_apply E req now v s
    dispatched true wet = cc
    dispatched false wet = refl

    settled_with : Result MachineIdentity × W → Result RetireResponse × Sys W
    settled_with (r, w) =
        (settle_retirement E req now r >>= retire_rest E now) (record s { world = w })

    reaches :
        validate_retire_request req ≡ ok tt
        → req.dry_run ≡ false
        → req.confirm ≡ true
        → lookup req.id s.identities ≡ some v
        → v.state ≡ active
        → retire E req now s ≡ settled_with (E.adapter.retire v s.world)
    unfolding retire retire_apply retirement_section settled_with
    reaches valid wet sure found act =
        rw (retire_guards_pass valid wet sure found act) (dispatched req.dry_run wet)

    -- Retire on a valid, confirmed request that is no dry run, for a stored active identity: if
    -- the provider retires it, the id then holds the provider's view under that id, in state
    -- retired, in need of attention and updated at that time; its trail is the old one followed
    -- by one event of type identity.retired with the requester, the reason and the next number,
    -- and then by revocation events only, whether saving succeeds or not.
    pub retire_lem :
        (view : MachineIdentity) (w : W)
        → validate_retire_request req ≡ ok tt
        → req.dry_run ≡ false
        → req.confirm ≡ true
        → lookup req.id s.identities ≡ some v
        → v.state ≡ active
        → E.adapter.retire v s.world ≡ (ok view, w)
        → Retired req now view s.store (retire E req now s).1.store
    unfolding settled_with
    retire_lem view w valid wet sure found act h =
        subst (λ z. Retired req now view s.store z.1.store)
          (sym (reaches valid wet sure found act ∙ ap settled_with h)) (Retired-answer view w)

    -- Retire on a valid, confirmed request that is no dry run, for a stored active identity: if
    -- the provider fails, the store stays as it was, no vault is asked, and the caller gets that
    -- failure itself where it is a forbidden operation, and otherwise an error of the provider
    -- whose text has that of the failure.
    pub retire_provider_failure :
        (x : Error) (w : W)
        → validate_retire_request req ≡ ok tt
        → req.dry_run ≡ false
        → req.confirm ≡ true
        → lookup req.id s.identities ≡ some v
        → v.state ≡ active
        → E.adapter.retire v s.world ≡ (err x, w)
        → (retire E req now s ≡ (err (provider_operation_error x), record s { world = w }))
          × Reported x (provider_operation_error x)
    unfolding settled_with
    retire_provider_failure x w valid wet sure found act h = (
      reaches valid wet sure found act ∙ ap settled_with h ∙ failed_answer x w,
      provider_operation_error-Reported x,
    )

  -- Retire with the dry-run flag or without a confirmation leaves the store as it was, whether it
  -- plans, is refused or fails.
  pub retire_dry_run_lem :
      (s : Sys W) → (req.dry_run || not req.confirm) ≡ true → (retire E req now s).1.store ≡ s.store
  unfolding retire retire_dry_run
  retire_dry_run_lem s quiet =
      Guarded-keeps s (λ st. st ≡ s.store) (retire_guards req) _ (retire_guards-Guarded s req) refl
        λ v fit. planned v req.dry_run req.confirm fit.confirmed quiet
    where
      planned :
          (v : MachineIdentity) (dry sure : Bool)
          → (not dry && not sure) ≡ false
          → (dry || not sure) ≡ true
          → ((if dry then retire_dry_run E v else retire_apply E req now v) s).1.store ≡ s.store
      planned v true sure p q = ground (arith, store-plan E v false s)
      planned v false true p q = cc
      planned v false false p q = cc
