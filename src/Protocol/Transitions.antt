-- ===== src/Protocol/Transitions.antt =====
-- The lifecycle state machine of pkg/protocol/transitions.go.
pub mod Reach
use mutandae.Prelude.{Bool, true, false, List, [], ◌∷◌}
use mutandae.Protocol.Enums.{State, registered, active, renewing, retired}

-- `AllowedTransitions[from][to]`; a missing key reads as false.
unfoldable pub can_transition : State → State → Bool
can_transition registered active = true
can_transition active renewing = true
can_transition active retired = true
can_transition renewing active = true
can_transition renewing retired = true
can_transition _ _ = false

unfoldable pub known_states : List State
known_states = registered ∷ active ∷ renewing ∷ retired ∷ []
