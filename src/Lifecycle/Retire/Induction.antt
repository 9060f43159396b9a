-- ===== src/Lifecycle/Retire/Induction.antt =====
-- To show that a predicate on the store holds behind `Retire` or `Delete`.
use mutandae.Prelude.{
  String, ◌≡◌, refl, ◌∙◌, Bool, true, false, if◌then◌else◌, lookup, Option, some, List, [],
}
use mutandae.Protocol.{
  MachineIdentity, LifecycleEvent, RetireRequest, DeleteRequest, Time, credential_revoked,
}
use mutandae.Protocol.Errors.{Result, ok, err}
use mutandae.Lifecycle.Env.{Env}
use mutandae.Lifecycle.Plans.{plan}
use mutandae.Lifecycle.Retire.{
  retire, retire_guards, retire_dry_run, retire_apply, retire_rest, retirement_section,
  settle_retirement, revoke_copies, retired_of, retired_event, delete_guards, delete_identity,
  delete_rest, deletion_section, deleted_event, purge, retire_reply, delete_reply,
}
use mutandae.Lifecycle.Retire.Guards.{retire_guards-Guarded, delete_guards-Guarded}
use mutandae.Lifecycle.Rotate.{require_known, found}
use mutandae.Lifecycle.Store.{append_event, events_of, put_identity}
use mutandae.Lifecycle.Store.Guarded.{Guarded-keeps}
use mutandae.Lifecycle.Store.Keeps.{
  Keeps, Keeps-add_event, Keeps-ask, Keeps-bind, Keeps-gets, Keeps-modify, Keeps-pure,
}
use mutandae.Lifecycle.Store.Laws.{Keeps-persist, Keeps-plan}
use mutandae.Lifecycle.Store.Monad.{Store, Sys}
use mutandae.Lifecycle.Store.Yields.{
  Yields, Yields-bind, Yields-keeps, Yields-pure, Yields-raise, Yields→Keeps,
}
use mutandae.Lifecycle.Vaults.Keeps.{
  Absorbs, Keeps-revoke_from_vault, Keeps-revoke_from_common_vault,
}

module _ {W : Type 0} (E : Env W) {P : Store → Type 0} where
  pub Keeps-revoke_copies :
      (v : MachineIdentity) (now : Time)
      → Absorbs P v.id credential_revoked
      → Keeps P (revoke_copies E v now)
  unfolding revoke_copies
  Keeps-revoke_copies v now absorbs =
      Keeps-bind _ _ (Keeps-revoke_from_vault E v absorbs now)
        λ _. Keeps-revoke_from_common_vault E v absorbs now

  Keeps-known : (id : String) → Keeps P (require_known {W = W} id)
  Keeps-known id = record { at = λ s h. at_option (lookup id s.identities) s h }
    where
      at_option : (o : Option MachineIdentity) (s : Sys W) → P s.store → P (found o s).1.store
      at_option Option.none s h = h
      at_option (some v) s h = h

module _ {W : Type 0} (E : Env W) (req : RetireRequest) (now : Time) {P : Store → Type 0}
    (absorbs : Absorbs P req.id credential_revoked)
    (puts : (view : MachineIdentity) (st : Store)
      → P st
      → P (put_identity req.id (retired_of req.id view now) st))
    (records : (view : MachineIdentity) (st : Store)
      → P st
      → P (append_event (retired_event req (retired_of req.id view now) now) st)) where
  abbrev Own : MachineIdentity → Type 0
  Own v = v.id ≡ req.id

  settled : (r : Result MachineIdentity) → Yields P Own (settle_retirement E req now r)
  unfolding settle_retirement
  settled (err e) = Yields-raise _
  settled (ok view) =
      Yields-bind {Q = λ _. Unit} _ _
        (Yields-keeps _
          (Keeps-bind _ _
            (Keeps-bind _ _ (Keeps-modify _ (puts view)) (λ _. Keeps-add_event E _ (records view)))
            (λ _. Keeps-persist E))
          (λ _. tt))
        λ _ _. Yields-pure (retired_of req.id view now) refl

  section : (v : MachineIdentity) → Yields P Own (retirement_section E req now v)
  unfolding retirement_section
  section v =
      Yields-bind {Q = λ _. Unit} _ _ (Yields-keeps _ (Keeps-ask (E.adapter.retire v)) (λ _. tt))
        λ r _. settled r

  rest : (v : MachineIdentity) → v.id ≡ req.id → Keeps P (retire_rest E now v)
  unfolding retire_rest
  rest v own = Keeps-bind _ _ (Keeps-revoke_copies E v now (λ d p q. absorbs d (p ∙ own) q)) λ _.
      Keeps-bind {A = List LifecycleEvent} _ _ (Keeps-gets (λ s. events_of v.id s.store))
        λ events. Keeps-pure (retire_reply v events)

  applied : (v : MachineIdentity) → Keeps P (retire_apply E req now v)
  unfolding retire_apply
  applied v =
      Yields→Keeps {Q = λ _. Unit} _
        (Yields-bind _ _ (section v) λ u own. Yields-keeps _ (rest u own) (λ _. tt))

  accepted :
      (v : MachineIdentity) (dry : Bool)
      → Keeps P (if dry then retire_dry_run E v else retire_apply E req now v)
  unfolding retire_dry_run
  accepted v true =
      Keeps-bind {P = P} (plan E v false) _ (Keeps-plan E v false)
        λ planned. Keeps-pure (record { identity = v; events = []; plan = some planned })
  accepted v false = applied v

  pub retire_keeps : (s : Sys W) → P s.store → P (retire E req now s).1.store
  unfolding retire
  retire_keeps s p =
      Guarded-keeps s P (retire_guards req) _ (retire_guards-Guarded s req) p
        λ v fit. (accepted v req.dry_run).at s p

module _ {W : Type 0} (E : Env W) (req : DeleteRequest) (now : Time) {P : Store → Type 0}
    (absorbs : Absorbs P req.id credential_revoked)
    (records : (v : MachineIdentity)
      → v.id ≡ req.id
      → (st : Store) → P st
      → P (append_event (deleted_event req v now) st))
    (purges : (st : Store) → P st → P (purge req.id st)) where
  deletion : (v : MachineIdentity) → v.id ≡ req.id → Keeps P (deletion_section E req now v)
  unfolding deletion_section
  deletion v own = Keeps-bind _ _ (Keeps-known E req.id) λ _.
      Keeps-bind _ _ (Keeps-add_event E _ (records v own)) λ _.
        Keeps-bind {A = List LifecycleEvent} _ _ (Keeps-gets (λ s. events_of v.id s.store))
          λ events.
            Keeps-bind _ _ (Keeps-modify (purge v.id) (λ st p. rw own (purges st p)))
              λ _. Keeps-bind _ _ (Keeps-persist E) λ _. Keeps-pure events

  pub delete_keeps :
      (s : Sys W)
      → ((v : MachineIdentity) → lookup req.id s.identities ≡ some v → v.id ≡ req.id)
      → P s.store
      → P (delete_identity E req now s).1.store
  unfolding delete_identity delete_rest
  delete_keeps s own p =
      Guarded-keeps s P (delete_guards req) _ (delete_guards-Guarded s req) p λ v fit.
        (Keeps-bind _ _ (Keeps-revoke_copies E v now (λ d p q. absorbs d (p ∙ own v fit.found) q))
            λ _.
              Keeps-bind _ _ (deletion v (own v fit.found))
                λ events. Keeps-pure (delete_reply v events)).at
          s p
