-- ===== src/Lifecycle/Provision/Induction.antt =====
-- To show that a predicate on the store holds behind `Provision`.
use mutandae.Prelude.{String, refl, Option, none, some, trim_space, ◌==◌, string_eq}
use mutandae.Protocol.{
  MachineIdentity, ProvisionRequest, ProvisionResponse, Time, credential_delivered,
  or_control_plane,
}
use mutandae.Protocol.Errors.{Result, ok, err, prefix}
use mutandae.Protocol.Validation.{validate_identity}
use mutandae.Lifecycle.Env.{Env, Call}
use mutandae.Lifecycle.Provision.{
  adopt_provisioned, check_provisioned, create_call, govern_provisioned, govern_rest, provision,
  provisioned, settle_create, provision_reply,
}
use mutandae.Lifecycle.Register.{discovered_event, registered_event}
use mutandae.Lifecycle.Rotate.Delivery.{AbsorbsPut, Keeps-record_references}
use mutandae.Lifecycle.Store.{append_event}
use mutandae.Lifecycle.Store.Keeps.{
  Keeps, Keeps-add_event, Keeps-ask, Keeps-bind, Keeps-modify, Keeps-pure, Keeps-raise,
  Keeps-refuse,
}
use mutandae.Lifecycle.Store.Laws.{Keeps-persist}
use mutandae.Lifecycle.Store.Monad.{Store}
use mutandae.Lifecycle.Vaults.Keeps.{Absorbs, Keeps-deliver_to_vault, Keeps-mirror_to_common_vault}

-- `P` outlasts the writes of a provisioned identity.
pub record Admits (P : Store → Type 0) (req : ProvisionRequest) (tenant : String)
    (v : MachineIdentity) (now : Time) : Type 0 where
  pub puts : AbsorbsPut P v
  pub discovery :
      (st : Store) → P st → P (append_event (discovered_event v now "Provisioned" tenant) st)
  pub registration :
      (st : Store)
      → P st
      → P (append_event (registered_event v now (or_control_plane req.requested_by)) st)
  pub deliveries : Absorbs P v.id credential_delivered

module _ {W : Type 0} (E : Env W) {P : Store → Type 0} where
  Keeps-settle_create : (r : Result ProvisionResponse) → Keeps P (settle_create {W = W} r)
  unfolding settle_create
  Keeps-settle_create (ok response) = Keeps-pure response
  Keeps-settle_create (err e) = Keeps-raise _

  Keeps-create_call :
      (create : Option (String → String → Call W ProvisionResponse)) (provider purpose : String)
      → Keeps P (create_call create provider purpose)
  unfolding create_call
  Keeps-create_call none provider purpose = Keeps-raise _
  Keeps-create_call (some create) provider purpose =
      Keeps-bind _ _ (Keeps-ask (create provider purpose)) Keeps-settle_create

  Keeps-check_provisioned :
      (v : MachineIdentity) (r : Result (Unit {0})) → Keeps P (check_provisioned E v r)
  unfolding check_provisioned
  Keeps-check_provisioned v (ok _) = Keeps-pure tt
  Keeps-check_provisioned v (err e) =
      Keeps-bind _ _ (Keeps-ask (E.adapter.retire v))
        (λ _. Keeps-raise (prefix "provisioned identity is not conformant: " e))

  module _ (req : ProvisionRequest) (tenant : String) (now : Time) where
    Keeps-adopt_provisioned :
        (v : MachineIdentity)
        → Admits P req tenant v now
        → Keeps P (adopt_provisioned E req tenant v now)
    unfolding adopt_provisioned
    Keeps-adopt_provisioned v admits =
        Keeps-bind _ _ (Keeps-modify _ (admits.puts v refl refl refl)) λ _.
          Keeps-bind _ _ (Keeps-add_event E _ admits.discovery)
            λ _. Keeps-add_event E _ admits.registration

    Keeps-govern_rest :
        (response : ProvisionResponse) (v : MachineIdentity)
        → Admits P req tenant v now
        → Keeps P (govern_rest E response now v)
    unfolding govern_rest
    Keeps-govern_rest response v admits =
        Keeps-bind _ _ (Keeps-deliver_to_vault E v admits.deliveries _ _ now) λ native.
          Keeps-bind _ _ (Keeps-mirror_to_common_vault E v admits.deliveries _ _ now) λ common.
            Keeps-bind _ _ (Keeps-record_references v admits.puts native common now) λ v'.
              Keeps-bind _ _ (Keeps-persist E)
                λ _. Keeps-pure (provision_reply response v' native common)

    Keeps-govern_provisioned :
        (response : ProvisionResponse)
        → Admits P req tenant (provisioned response.identity now) now
        → Keeps P (govern_provisioned E req tenant response now)
    unfolding govern_provisioned
    Keeps-govern_provisioned response admits =
        let v = provisioned response.identity now in
        Keeps-bind _ _ (Keeps-refuse (response.identity.name == "") _) λ _.
          Keeps-bind _ _ (Keeps-check_provisioned v (validate_identity v)) λ _.
            Keeps-bind _ _ (Keeps-adopt_provisioned v admits)
              λ _. Keeps-govern_rest response v admits

  pub Keeps-provision :
      (req : ProvisionRequest) (now : Time)
      → ((v : MachineIdentity) → Admits P req (trim_space req.provider) (provisioned v now) now)
      → Keeps P (provision E req now)
  unfolding provision
  Keeps-provision req now admits =
      Keeps-bind _ _ (Keeps-refuse (trim_space req.provider == "") _) λ _.
        Keeps-bind _ _ (Keeps-create_call E.adapter.create (trim_space req.provider) req.purpose)
          λ response.
            Keeps-govern_provisioned req (trim_space req.provider) now response
              (admits response.identity)
