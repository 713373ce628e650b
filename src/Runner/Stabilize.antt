-- ===== src/Runner/Stabilize.antt =====
-- Alert stabilisation: stabilizeTransitions of internal/runner/runner.go.
use swarm_sentinel.Base.{
  ℤ, pos, Text, text_eq, ◌+ᵢ◌, List, [], ◌∷◌, Option, none, some, Bool, false, not, ◌||◌, ◌==◌,
  ltb_ℤ, leb_ℤ, if◌then◌else◌,
}
use swarm_sentinel.Base.Dict.{Dict, lookup, insert}
use swarm_sentinel.Health.Types.{ServiceStatus, ok, unset, ServiceHealth, StackHealth, status_eq}
use swarm_sentinel.State.Types.{StackSnapshot}
use swarm_sentinel.Transition.Types.{ServiceTransition}
use swarm_sentinel.Transition.Detect.{prev_services, is_first_run, detect_service_transitions}

-- The number of cycles in force: at least 1.
unfoldable pub effective_cycles : ℤ → ℤ
effective_cycles stabilization = if leb_ℤ stabilization (pos 0) then pos 1 else stabilization

-- How many cycles in a row, this one included, have had the status.
unfoldable pub consecutive : Option ServiceHealth → ServiceStatus → ℤ
consecutive none status = pos 1
consecutive (some prev) status =
    if prev.status == status
    then (if ltb_ℤ (pos 0) prev.consecutive_cycles then prev.consecutive_cycles +ᵢ pos 1 else pos 2)
    else pos 1

-- The status that the user knows of.
unfoldable pub last_notified : Option ServiceHealth → ServiceStatus
last_notified none = unset
last_notified (some prev) =
    if prev.last_notified_status == unset then prev.status else prev.last_notified_status

unfoldable pub should_notify : ℤ → Bool → Option ServiceHealth → ServiceStatus → Bool
should_notify stabilization first_run prev status =
    if first_run
    then not (status == ok)
    else if not (status == last_notified prev)
    then leb_ℤ stabilization (pos 1) || leb_ℤ stabilization (consecutive prev status)
    else false

-- The service as it is when it becomes eligible, before the notice is noted.
unfoldable pub observed : Option ServiceHealth → ServiceHealth → ServiceHealth
observed prev service = record service {
  consecutive_cycles = consecutive prev service.status;
  last_notified_status = last_notified prev;
}

-- The service as it is persisted.
unfoldable pub updated : ℤ → Bool → Option ServiceHealth → ServiceHealth → ServiceHealth
updated stabilization first_run prev service =
    if should_notify stabilization first_run prev service.status
    then record (observed prev service) { last_notified_status = service.status }
    else observed prev service

-- The services to persist, and those that are eligible for a notice.
abbrev pub Sorted : Type 0
Sorted = Dict Text ServiceHealth × Dict Text ServiceHealth

-- The loop over the current services.
unfoldable pub stabilize_services :
    ℤ → Bool → Dict Text ServiceHealth → Dict Text ServiceHealth → Sorted → Sorted
stabilize_services stabilization first_run prev [] sorted = sorted
stabilize_services stabilization first_run prev ((name, service) ∷ rest) (kept, eligible) =
    let found = lookup name prev in
    stabilize_services stabilization first_run prev rest (
      insert name (updated stabilization first_run found service) kept,
      if should_notify stabilization first_run found service.status
          then insert name (observed found service) eligible
          else eligible,
    )

-- stabilizeTransitions
unfoldable pub stabilize_transitions :
    ℤ → Option StackSnapshot → StackHealth → Dict Text ServiceHealth × List ServiceTransition
stabilize_transitions stabilization prev current =
    let (kept, eligible) =
      stabilize_services (effective_cycles stabilization) (is_first_run prev) (prev_services prev)
        current.services ([], []) in
    (
      kept,
      detect_service_transitions prev (record { status = current.status; services = eligible }),
    )
