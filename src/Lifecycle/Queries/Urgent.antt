-- ===== src/Lifecycle/Queries/Urgent.antt =====
-- Urgency over time, and behind a rotation.
use mutandae.Prelude.{ℕ, ◌≤◌, ◌≡◌, arith}
use mutandae.Protocol.{
  MachineIdentity, Time, Urgency, RotateRequest, urgency_healthy, urgency_expiring, urgency_overdue,
  urgency_retired,
}
use mutandae.Protocol.Iso8601.{parse_iso8601_duration}
use mutandae.Lifecycle.Queries.{compute_urgency, dashboard_expiry_window}
use mutandae.Lifecycle.Rotate.{or_zero}
use mutandae.Lifecycle.Rotate.Section.{renewal}

-- How urgent it is to act.
abbrev pub severity : Urgency → ℕ
severity urgency_retired = 0
severity urgency_healthy = 0
severity urgency_expiring = 1
severity urgency_overdue = 2

-- At a later time the same identity is at least as urgent as at an earlier one.
pub urgency_grows :
    (v : MachineIdentity) (now later : Time)
    → now ≤ later
    → severity (compute_urgency v now) ≤ severity (compute_urgency v later)
unfolding compute_urgency
urgency_grows v now later le = ground arith

-- If the renewal period of the policy parses to at least the dashboard's window, what a rotation
-- stores is healthy at that time.
pub renewal_healthy :
    (req : RotateRequest) (now : Time) (v view : MachineIdentity)
    → dashboard_expiry_window ≤ or_zero (parse_iso8601_duration v.policy.renewal_period)
    → compute_urgency (renewal req now v view) now ≡ urgency_healthy
unfolding compute_urgency
renewal_healthy req now v view long = ground arith
