-- ===== src/Lifecycle/Register/Induction.antt =====
-- To show that a predicate on the store holds behind `Register`.
use mutandae.Prelude.{◌≡◌, refl, ◌∙◌, false, Option, none, some, List, lookup, is_some}
use mutandae.Protocol.{
  MachineIdentity, LifecycleEvent, RegisterRequest, Time, Duration, or_control_plane,
}
use mutandae.Protocol.Errors.{Error, err}
use mutandae.Protocol.Iso8601.{parse_iso8601_duration}
use mutandae.Lifecycle.Env.{Env}
use mutandae.Lifecycle.Register.{
  chosen_id, register, register_conforms, register_failures, register_guards, register_rest,
  registered_event, registered_identity, duplicate, period_error, register_reply,
}
use mutandae.Lifecycle.Store.{append_event, events_of, put_identity}
use mutandae.Lifecycle.Store.Guarded.{
  Guarded, fails, passes, Guarded-bind, Guarded-keeps, Guarded-lift, Guarded-pure, Guarded-refuse,
  Guarded-gets,
}
use mutandae.Lifecycle.Store.Keeps.{
  Keeps, Keeps-add_event, Keeps-bind, Keeps-gets, Keeps-modify, Keeps-pure,
}
use mutandae.Lifecycle.Store.Laws.{Keeps-persist}
use mutandae.Lifecycle.Store.Monad.{Store, Sys}

fresh_of : (o : Option MachineIdentity) → is_some o ≡ false → o ≡ none
fresh_of none h = refl
fresh_of (some v) h = cc

-- The id is new.
abbrev pub Fresh : {W : Type 0} → Sys W → RegisterRequest → Type 0
Fresh s req = lookup (chosen_id req) s.identities ≡ none

pub register_guards-Guarded :
    {W : Type 0} (s : Sys W) (req : RegisterRequest)
    → Guarded (λ _. Fresh s req) (register_guards req) s
unfolding register_guards
register_guards-Guarded s req =
    Guarded-bind s _ _ (Guarded-lift s (register_conforms (register_failures req))) λ _ _.
      Guarded-bind s _ _
        (Guarded-lift s (period_error (parse_iso8601_duration req.policy.renewal_period)))
        λ period _.
          Guarded-bind s _ _ (Guarded-gets s (λ t. lookup (chosen_id req) t.identities)) λ o found.
            Guarded-bind s _ _ (Guarded-refuse s (is_some o) (duplicate req))
              λ _ new. Guarded-pure s period (found ∙ fresh_of o new)

module _ {W : Type 0} (E : Env W) (req : RegisterRequest) (now : Time) {P : Store → Type 0}
    (puts : (period : Duration) (st : Store)
      → P st
      → P (put_identity (chosen_id req) (registered_identity req period now) st))
    (records : (period : Duration) (st : Store)
      → P st
      → P (
          append_event
            (registered_event
              (registered_identity req period now)
              now
              (or_control_plane req.requested_by))
            st)) where
  Keeps-register_rest : (period : Duration) → Keeps P (register_rest E req now period)
  unfolding register_rest
  Keeps-register_rest period = Keeps-bind _ _ (Keeps-modify _ (puts period)) λ _.
      Keeps-bind _ _ (Keeps-add_event E _ (records period)) λ _.
        Keeps-bind _ _ (Keeps-persist E) λ _.
          Keeps-bind {A = List LifecycleEvent} _ _
            (Keeps-gets (λ s. events_of (registered_identity req period now).id s.store))
            λ events. Keeps-pure (register_reply (registered_identity req period now) events)

  pub register_keeps : (s : Sys W) → P s.store → P (register E req now s).1.store
  unfolding register
  register_keeps s p =
      Guarded-keeps s P (register_guards req) _ (register_guards-Guarded s req) p
        λ period fresh. (Keeps-register_rest period).at s p

-- Register of an id that is stored already, retired or not, fails and changes nothing, in the
-- store or outside.
pub register_known :
    {W : Type 0} (E : Env W) (req : RegisterRequest) (now : Time) (s : Sys W) (v : MachineIdentity)
    → lookup (chosen_id req) s.identities ≡ some v
    → (e : Error) × (register E req now s ≡ (err e, s))
unfolding register
register_known E req now s v known = refused (register_guards-Guarded s req)
  where
    refused :
        Guarded (λ _. Fresh s req) (register_guards req) s
        → (e : Error) × (register E req now s ≡ (err e, s))
    refused (fails e p) = (e, rw p refl)
    refused (passes period p fresh) = cc (fresh, known)
