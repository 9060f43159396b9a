-- ===== src/Protocol/Enums.antt =====
-- The enumerations of pkg/protocol/enums.go and events.go. A Go string type with constants is a
-- data type with one more constructor for any other text, where a foreign value can reach the code.
use mutandae.Prelude.{String, ◌≡◌, ◌↔◌, Bool, true, false, arith, eq_iff, Eq, ◌==◌, string_eq}

pub data State : Type 0 where
  registered active renewing retired : State
  unknown : String → State

abbrev pub state_beq : State → State → Bool
state_beq registered registered = true
state_beq active active = true
state_beq renewing renewing = true
state_beq retired retired = true
state_beq (unknown s) (unknown t) = s == t
state_beq _ _ = false

pub state_beq_iff : (a b : State) → (state_beq a b ≡ true) ↔ (a ≡ b)
state_beq_iff (unknown s) (unknown t) = ground (arith, eq_iff s t)
state_beq_iff _ _ = ground arith

instance abbrev pub state_eq : Eq State
state_eq = record { equals = state_beq; equals_iff = state_beq_iff }

abbrev pub state_text : State → String
state_text registered = "registered"
state_text active = "active"
state_text renewing = "renewing"
state_text retired = "retired"
state_text (unknown s) = s

unfoldable pub valid_state : State → Bool
valid_state (unknown s) = false
valid_state _ = true

pub data Health : Type 0 where
  healthy attention : Health
  unset_health : Health
  unknown_health : String → Health

abbrev pub health_text : Health → String
health_text healthy = "healthy"
health_text attention = "attention"
health_text unset_health = ""
health_text (unknown_health s) = s

unfoldable pub valid_health : Health → Bool
valid_health healthy = true
valid_health attention = true
valid_health _ = false

pub data Urgency : Type 0 where
  urgency_healthy urgency_expiring urgency_overdue urgency_retired : Urgency

pub data RotationStatus : Type 0 where
  pending running succeeded failed rolled_back : RotationStatus

pub data Outcome : Type 0 where
  success in_progress attention_outcome failure cancelled : Outcome

pub data ErrorCode : Type 0 where
  no_code invalid_request forbidden_code conformance_failure not_found_code : ErrorCode
  invalid_transition_code already_retired_code rotation_in_progress_code : ErrorCode
  provider_failure_code unsupported_version conflict internal unimplemented : ErrorCode

pub data EventType : Type 0 where
  identity_discovered identity_registered identity_imported ownership_assigned : EventType
  ownership_changed policy_applied renewal_alerted expiry_imminent expiry_overdue : EventType
  rotation_requested rotation_started rotation_completed rotation_failed : EventType
  rotation_rolled_back credential_delivered credential_used credential_revoked : EventType
  integration_connected application_created secret_created secret_read : EventType
  secret_invalidated integration_closed identity_retired identity_revoked : EventType
  identity_resurrected identity_deleted : EventType

abbrev pub actor_operator : String
actor_operator = "operator"

abbrev pub actor_control_plane : String
actor_control_plane = "control-plane"

abbrev pub actor_provider_adapter : String
actor_provider_adapter = "provider-adapter"

abbrev pub actor_discovery : String
actor_discovery = "discovery"
