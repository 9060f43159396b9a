-- ===== src/Lifecycle/Queries.antt =====
-- The readers of internal/lifecycle/lifecycle.go, `Transition`, and internal/lifecycle/urgency.go.
pub mod Order
pub mod Urgent
use mutandae.Prelude.{
  ℕ, ◌+◌, ◌*◌, String, Bool, true, false, not, Option, none, some, List, lookup, values, filter,
  ltb, leb, str_lt, ◌==◌, nat_eq, string_eq, if◌then◌else◌, ◌<>◌,
}
use mutandae.Protocol.{
  MachineIdentity, LifecycleEvent, RotationRun, State, Time, Duration, Urgency, retired, state_eq,
  state_text, urgency_healthy, urgency_expiring, urgency_overdue, urgency_retired,
}
use mutandae.Protocol.Errors.{Result, ok, err, wrap, invalid_transition}
use mutandae.Protocol.Iso8601.{day}
use mutandae.Protocol.Transitions.{can_transition}
use mutandae.Lifecycle.Store.{events_of, runs_of}
use mutandae.Lifecycle.Store.Monad.{Store}
use mutandae.Lifecycle.Store.Snapshots.{sort}

-- By expiry, and by name where two expire at once.
abbrev pub expires_before : MachineIdentity → MachineIdentity → Bool
expires_before a b =
    let by_name = str_lt a.name b.name in
    if a.expires_at == b.expires_at then by_name else ltb a.expires_at b.expires_at

-- Newest first, and by descending id at one time.
abbrev pub event_after : LifecycleEvent → LifecycleEvent → Bool
event_after a b = let by_id = str_lt b.id a.id in if a.at == b.at then by_id else ltb b.at a.at

abbrev pub run_after : RotationRun → RotationRun → Bool
run_after a b =
    let by_id = str_lt b.id a.id in
    if a.requested_at == b.requested_at then by_id else ltb b.requested_at a.requested_at

abbrev pub listed : Bool → MachineIdentity → Bool
listed include_retired v = if include_retired then true else not (v.state == retired)

-- `list`; `List` is `list false` and `ListIncludingRetired` is `list true`.
unfoldable pub list : Bool → Store → List MachineIdentity
unfolding sort
list include_retired st =
    sort expires_before (filter (listed include_retired) (values st.identities))

unfoldable pub get : String → Store → Option MachineIdentity
get id st = lookup id st.identities

-- The events are kept, but not shown, without the record.
unfoldable pub events_known :
    Option MachineIdentity → List LifecycleEvent → Option (List LifecycleEvent)
unfolding sort
events_known none es = none
events_known (some v) es = some (sort event_after es)

unfoldable pub events : String → Store → Option (List LifecycleEvent)
unfolding events_known
events id st = events_known (lookup id st.identities) (events_of id st)

runs_known : Option MachineIdentity → List RotationRun → Option (List RotationRun)
unfolding sort
runs_known none rs = none
runs_known (some v) rs = some (sort run_after rs)

unfoldable pub runs : String → Store → Option (List RotationRun)
unfolding runs_known
runs id st = runs_known (lookup id st.identities) (runs_of id st)

-- `Transition`
unfoldable pub transition : State → State → Result (Unit {0})
transition from to =
    if can_transition from to
    then ok tt
    else err (wrap invalid_transition (state_text from <> " -> " <> state_text to))

-- `DashboardExpiryWindow`
abbrev pub dashboard_expiry_window : Duration
dashboard_expiry_window = 30 * day

-- `ComputeUrgency`, and its alias `RenewalUrgency`.
unfoldable pub compute_urgency : MachineIdentity → Time → Urgency
compute_urgency v now =
    if v.state == retired
    then urgency_retired
    else if leb v.expires_at now
    then urgency_overdue
    else if ltb v.expires_at (now + dashboard_expiry_window)
    then urgency_expiring
    else urgency_healthy
