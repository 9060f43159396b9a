-- ===== src/Lifecycle/Rotate/Reply.antt =====
-- What `Rotate` answers.
use mutandae.Prelude.{
  String, ◌≡◌, refl, ◌∙◌, ap, Bool, true, false, Option, none, some, if◌then◌else◌, ◌==◌, string_eq,
  length, List,
}
use mutandae.Protocol.{
  MachineIdentity, RotationRun, RotateRequest, RotateResponse, VaultReference, Time, LifecycleEvent,
}
use mutandae.Protocol.Errors.{Error, Result, ok, err}
use mutandae.Protocol.Validation.{validate_rotate_request}
use mutandae.Lifecycle.Env.{Env}
use mutandae.Lifecycle.Errors.{
  provider_operation_error, Reported, provider_operation_error-Reported,
}
use mutandae.Lifecycle.Rotate.{
  begin_rotation, deliver_issued, deliver_renewed, deliver_secret, record_references, rotate,
  rotate_apply, rotate_dry_run, rotate_reply, rotate_rest, rotation_section, settle_rotation,
}
use mutandae.Lifecycle.Rotate.Answered.{guards_pass}
use mutandae.Lifecycle.Rotate.Guards.{Rotatable}
use mutandae.Lifecycle.Rotate.Section.{answer, begun, fresh_run, renewal}
use mutandae.Lifecycle.Rotate.Trail.{final_run}
use mutandae.Lifecycle.Store.{add_event, events_of, runs_of}
use mutandae.Lifecycle.Store.Monad.{Sys, Action, continue, gets, pure, raise, ◌>>=◌}
use mutandae.Lifecycle.Store.Snapshots.{persist}
use mutandae.Lifecycle.Vaults.Returning.{Returning, vaults_lem}

-- The action returns a value of `Q` in any state.
record Replies {W A : Type 0} (Q : A → Type 0) (m : Action W A) : Type 0 where
  at : (s : Sys W) → (a : A) × ((m s).0 ≡ ok a) × Q a

module _ {W A : Type 0} {Q : A → Type 0} where
  Replies-pure : (a : A) → Q a → Replies Q (pure {W = W} a)
  Replies-pure a q = record { at = λ s. (a, refl, q) }

  Replies-Returning : (m : Action W A) → Returning m → ((a : A) → Q a) → Replies Q m
  Replies-Returning m r q = record { at = λ s. let (a, h) = r.at s in (a, h, q a) }

  Replies-if :
      (b : Bool) (m n : Action W A) → Replies Q m → Replies Q n → Replies Q (if b then m else n)
  Replies-if true m n rm rn = rm
  Replies-if false m n rm rn = rn

replied :
    {W A B : Type 0} {R : B → Type 0} (r : Result A) (f : A → Action W B) (s : Sys W) (a : A)
    → r ≡ ok a
    → Replies R (f a)
    → (b : B) × ((continue r f s).0 ≡ ok b) × R b
replied r f s a h k = rw h (k.at s)

module _ {W A B : Type 0} {Q : A → Type 0} {R : B → Type 0} where
  Replies-bind :
      (m : Action W A) (f : A → Action W B)
      → Replies Q m
      → ((a : A) → Q a → Replies R (f a))
      → Replies R (m >>= f)
  Replies-bind m f rm rf = record {
    at = λ s. let (a, h, q) = rm.at s in replied (m s).0 f (m s).1 a h (rf a q);
  }

-- With the id and the state of `v`.
abbrev pub Alike : MachineIdentity → MachineIdentity → Type 0
Alike v u = (u.id ≡ v.id) × (u.state ≡ v.state)

module _ {W : Type 0} (E : Env W) (v : MachineIdentity) (now : Time) where
  Replies-record_references :
      (native common : Option VaultReference)
      → Replies (Alike v) (record_references {W = W} v native common now)
  unfolding record_references
  Replies-record_references none none = Replies-pure v (refl, refl)
  Replies-record_references (some n) none = record { at = λ s. (_, refl, (refl, refl)) }
  Replies-record_references none (some c) = record { at = λ s. (_, refl, (refl, refl)) }
  Replies-record_references (some n) (some c) = record { at = λ s. (_, refl, (refl, refl)) }

  Replies-deliver_secret : (secret : String) → Replies (Alike v) (deliver_secret E v now secret)
  unfolding deliver_secret
  Replies-deliver_secret secret =
      let vaults = vaults_lem E v v.credential.key_id secret now in
      Replies-if (secret == "") _ _ (Replies-pure v (refl, refl)) (
        Replies-bind {Q = λ _. Unit} _ _ (Replies-Returning _ vaults.0 (λ _. tt)) λ native _.
          Replies-bind {Q = λ _. Unit} _ _ (Replies-Returning _ vaults.1 (λ _. tt))
            λ common _. Replies-record_references native common)

  Replies-deliver_issued :
      (consume : Option (String → W → String × W))
      → Replies (Alike v) (deliver_issued E consume v now)
  unfolding deliver_issued
  Replies-deliver_issued none = Replies-pure v (refl, refl)
  Replies-deliver_issued (some consume) = record {
    at = λ s. (Replies-deliver_secret (consume v.provider.provider s.world).0).at _;
  }

  Replies-deliver_renewed : Replies (Alike v) (deliver_renewed E v now)
  unfolding deliver_renewed
  Replies-deliver_renewed = Replies-deliver_issued E.adapter.consume_one_time_secret

-- Behind a save that succeeds the error is raised.
raised :
    {W A B : Type 0} (r : Result (Unit {0})) (t : Sys W) (e : Error) (f : A → Action W B)
    → r ≡ ok tt
    → (((λ u. (r, t)) >>= λ u. raise e) >>= f) t ≡ (err e, t)
raised (ok u) t e f h = refl
raised (err x) t e f h = cc

-- The answer to a rotation that succeeded with `run`.
abbrev pub Answers : MachineIdentity → RotationRun → RotateResponse → Type 0
Answers v run reply = Alike v reply.identity × (reply.rotation ≡ some run)

module _ {W : Type 0} (E : Env W) (now : Time) (saves : (t : Sys W) → (persist E t).0 ≡ ok tt) where
  Replies-rotate_rest :
      (v : MachineIdentity) (run : RotationRun)
      → Replies (Answers v run) (rotate_rest E now (v, run))
  unfolding rotate_rest
  Replies-rotate_rest v run = Replies-bind _ _ (Replies-deliver_renewed E v now) λ u alike.
      Replies-bind {Q = λ _. Unit} _ _ (record { at = λ s. (tt, saves s, tt) })
        λ _ _.
          Replies-bind {A = List LifecycleEvent} {Q = λ _. Unit}
            (gets (λ s. events_of u.id s.store)) _
            (record { at = λ s. (events_of u.id s.store, refl, tt) })
            λ events _. Replies-pure (rotate_reply run u events) (alike, refl)

  module _ (req : RotateRequest) (v : MachineIdentity) (s : Sys W) where
    after_begin : Result MachineIdentity × W → Result RotateResponse × Sys W
    after_begin (r, w) =
        (settle_rotation E req.id v (fresh_run req now v s.store) (length (runs_of v.id s.store))
              now r
            >>= rotate_rest E now)
          (record { store = begun req now v s.store; world = w })

    applied : rotate_apply E req now v s ≡ after_begin (answer req now v E s)
    unfolding rotate_apply rotation_section begin_rotation add_event after_begin
    applied = refl

    succeeded :
        (view : MachineIdentity) (w : W)
        → (reply : RotateResponse) × ((after_begin (ok view, w)).0 ≡ ok reply)
          × Answers (renewal req now v view) (final_run req now v s.store (ok view)) reply
    unfolding after_begin settle_rotation add_event
    succeeded view w = (Replies-rotate_rest (renewal req now v view) _).at _

    failed : (x : Error) (w : W) → (after_begin (err x, w)).0 ≡ err (provider_operation_error x)
    unfolding after_begin settle_rotation add_event
    failed x w =
        ap (λ p. p.0)
          (raised _ (persist E _).1 (provider_operation_error x) (rotate_rest E now) (saves _))

    dispatched :
        (dry : Bool)
        → dry ≡ false
        → (if dry then rotate_dry_run E v else rotate_apply E req now v) s
          ≡ rotate_apply E req now v s
    dispatched true wet = cc
    dispatched false wet = refl

    reaches :
        validate_rotate_request req ≡ ok tt
        → req.dry_run ≡ false
        → Rotatable req s v
        → rotate E req now s ≡ after_begin (answer req now v E s)
    unfolding rotate
    reaches valid wet fit =
        rw (guards_pass E req now s v valid fit) (dispatched req.dry_run wet) ∙ applied

    -- If saving succeeds, Rotate on a valid request that is no dry run, for a stored active
    -- identity that the provider renews, returns a reply, whatever the vaults answer: it has the
    -- id and the state of the renewed identity, and the succeeded run.
    pub rotate_replies :
        (view : MachineIdentity)
        → validate_rotate_request req ≡ ok tt
        → req.dry_run ≡ false
        → Rotatable req s v
        → (answer req now v E s).0 ≡ ok view
        → (reply : RotateResponse) × ((rotate E req now s).0 ≡ ok reply)
          × Answers (renewal req now v view) (final_run req now v s.store (ok view)) reply
    rotate_replies view valid wet fit h =
        let (reply, p, q) = succeeded view (answer req now v E s).1 in
        (
          reply,
          ap (λ z. z.0)
                (reaches valid wet fit ∙ ap (λ r. after_begin (r, (answer req now v E s).1)) h)
              ∙ p,
          q,
        )

    -- If saving succeeds, Rotate on a valid request that is no dry run, for a stored active
    -- identity, fails when the provider fails: with that failure itself where it is a forbidden
    -- operation, and otherwise with an error of the provider whose text has that of the failure.
    pub rotate_fails :
        (x : Error)
        → validate_rotate_request req ≡ ok tt
        → req.dry_run ≡ false
        → Rotatable req s v
        → (answer req now v E s).0 ≡ err x
        → ((rotate E req now s).0 ≡ err (provider_operation_error x))
          × Reported x (provider_operation_error x)
    rotate_fails x valid wet fit h = (
      ap (λ z. z.0) (reaches valid wet fit ∙ ap (λ r. after_begin (r, (answer req now v E s).1)) h)
          ∙ failed x (answer req now v E s).1,
      provider_operation_error-Reported x,
    )
