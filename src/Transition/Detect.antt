-- ===== src/Transition/Detect.antt =====
-- The comparison of a snapshot with current health: internal/transition/transition.go.
use mathlib.Core.Option
use swarm_sentinel.Base.{
  pos, Text, text_eq, int_eq, ◌-ᵢ◌, List, [], ◌∷◌, Option, none, some, Bool, true, false, not, ◌&&◌,
  ◌==◌, is_nil, is_some, if◌then◌else◌,
}
use swarm_sentinel.Base.Dict.{Dict, lookup}
use swarm_sentinel.Base.Sort.{sort_by}
use swarm_sentinel.Health.Types.{ServiceStatus, ok, unset, ServiceHealth, StackHealth, status_eq}
use swarm_sentinel.State.Types.{StackSnapshot}
use swarm_sentinel.Transition.Types.{ReplicaChange, ImageChange, ServiceTransition, zero_service}

-- buildReplicaChange
unfoldable pub build_replica_change : ServiceHealth → ServiceHealth → Bool → Option ReplicaChange
build_replica_change prev current had_prev =
    if not had_prev && (current.desired_replicas == pos 0 && current.running_replicas == pos 0)
    then none
    else some (record {
      previous_desired = prev.desired_replicas;
      current_desired = current.desired_replicas;
      previous_running = prev.running_replicas;
      current_running = current.running_replicas;
      desired_delta = current.desired_replicas -ᵢ prev.desired_replicas;
      running_delta = current.running_replicas -ᵢ prev.running_replicas;
    })

-- buildImageChange
unfoldable pub build_image_change : ServiceHealth → ServiceHealth → Bool → Option ImageChange
build_image_change prev current had_prev =
    if not had_prev && (is_nil current.desired_image && is_nil current.actual_image)
    then none
    else some (record {
      previous_desired = prev.desired_image;
      current_desired = current.desired_image;
      previous_actual = prev.actual_image;
      current_actual = current.actual_image;
    })

-- The services of the snapshot, none for a nil one.
unfoldable pub prev_services : Option StackSnapshot → Dict Text ServiceHealth
prev_services none = []
prev_services (some prev) = prev.services

-- `prev == nil || len(prevServices) == 0`
unfoldable pub is_first_run : Option StackSnapshot → Bool
unfolding prev_services
is_first_run prev = is_nil (prev_services prev)

-- The status that a change is measured against: the one last notified, or else the last seen.
unfoldable pub previous_status : ServiceHealth → ServiceStatus
previous_status prev =
    if prev.last_notified_status == unset then prev.status else prev.last_notified_status

-- The three tests of the loop that pass a service over.
unfoldable pub is_skipped : Bool → Option ServiceHealth → ServiceHealth → Bool
is_skipped true prev current = current.status == ok
is_skipped false (some prev) current = previous_status prev == current.status
is_skipped false none current = current.status == ok

-- The transition that the loop appends.
unfoldable pub service_transition : Text → Option ServiceHealth → ServiceHealth → ServiceTransition
unfolding build_replica_change build_image_change previous_status
service_transition name found current =
    let prev = Option.get_or found zero_service in
    let had_prev = is_some found in
    record {
      name = name;
      previous_status = previous_status prev;
      current_status = current.status;
      reasons = current.reasons;
      drift = current.drift;
      replica_change = build_replica_change prev current had_prev;
      image_change = build_image_change prev current had_prev;
    }

-- The loop over the current services.
unfoldable pub collect_transitions :
    Bool → Dict Text ServiceHealth → Dict Text ServiceHealth → List ServiceTransition
unfolding is_skipped service_transition
collect_transitions first_run prev [] = []
collect_transitions first_run prev ((name, current) ∷ rest) =
    let found = lookup name prev in
    let others = collect_transitions first_run prev rest in
    if is_skipped first_run found current
    then others
    else service_transition name found current ∷ others

-- DetectServiceTransitions
unfoldable pub detect_service_transitions :
    Option StackSnapshot → StackHealth → List ServiceTransition
unfolding is_first_run prev_services collect_transitions sort_by
detect_service_transitions prev current =
    sort_by (λ t. t.name)
      (collect_transitions (is_first_run prev) (prev_services prev) current.services)
