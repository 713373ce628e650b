-- ===== src/Transition/Laws.antt =====
-- What DetectServiceTransitions reports, by service name, in whatever order the map is walked.
use swarm_sentinel.Base.{
  Text, text_eq, List, [], ◌∷◌, Option, none, some, Bool, Bool-cases, inl, inr, ◌≡◌, ◌∙◌, refl,
  arith, if◌then◌else◌, pos, int_eq, ◌-ᵢ◌, is_nil, true, false, ◌==◌, ==_iff, Option-cases, ◌&&◌,
}
use swarm_sentinel.Base.Dict.{Dict, lookup, NodupKeys}
use swarm_sentinel.Base.Sort.{IsSorted, sort_by-IsSorted}
use swarm_sentinel.Base.Sort.Find.{find_by, IsDistinct, find_by-sort_by, sort_by-IsDistinct}
use swarm_sentinel.Health.Types.{ok, unset, status_eq, ServiceHealth, StackHealth}
use swarm_sentinel.State.Types.{StackSnapshot}
use swarm_sentinel.Transition.Types.{ServiceTransition}
use swarm_sentinel.Transition.Detect.{
  prev_services, is_first_run, is_skipped, service_transition, previous_status,
  build_replica_change, build_image_change, collect_transitions, detect_service_transitions,
}

-- The transition of a service in a list of transitions.
abbrev pub transition_of : Text → List ServiceTransition → Option ServiceTransition
transition_of = find_by (λ t. t.name)

-- What is due for a service: nothing if it is not there or passed over, else its transition.
abbrev pub due_transition :
    Bool → Dict Text ServiceHealth → Dict Text ServiceHealth → Text → Option ServiceTransition
due_transition first_run prev current n = elim (lookup n current) [
  | none ↦ none
  | some c ↦
      if is_skipped first_run (lookup n prev) c
      then none
      else some (service_transition n (lookup n prev) c)
]

transition_of-collect_transitions :
    (first_run : Bool) (prev current : Dict Text ServiceHealth) (n : Text)
    → NodupKeys current
    → transition_of n (collect_transitions first_run prev current)
      ≡ due_transition first_run prev current n
unfolding collect_transitions find_by lookup service_transition
transition_of-collect_transitions first_run prev [] n u = refl
transition_of-collect_transitions first_run prev ((k, c) ∷ current) n u =
    ground (arith, transition_of-collect_transitions first_run prev current n u.1)

collect_transitions-IsDistinct :
    (first_run : Bool) (prev current : Dict Text ServiceHealth)
    → NodupKeys current
    → IsDistinct (λ t. t.name) (collect_transitions first_run prev current)
unfolding collect_transitions service_transition
collect_transitions-IsDistinct first_run prev [] u = tt
collect_transitions-IsDistinct first_run prev ((k, c) ∷ current) u =
    let rest = collect_transitions-IsDistinct first_run prev current u.1 in
    let fresh : transition_of k (collect_transitions first_run prev current) ≡ none =
      transition_of-collect_transitions first_run prev current k u.1 ∙ rw (u.0, due_transition) in
    elim (Bool-cases (is_skipped first_run (lookup k prev) c)) [
      | inl skipped ↦ rw skipped rest
      | inr kept ↦ rw kept (fresh, rest)
    ]

-- The report of a service that is not in the snapshot, and of one that is.
abbrev pub report_of_new : Text → ServiceHealth → ServiceTransition
report_of_new n c = record {
  name = n;
  previous_status = unset;
  current_status = c.status;
  reasons = c.reasons;
  drift = c.drift;
  replica_change =
      if c.desired_replicas == pos 0 && c.running_replicas == pos 0
      then none
      else some (record {
        previous_desired = pos 0;
        current_desired = c.desired_replicas;
        previous_running = pos 0;
        current_running = c.running_replicas;
        desired_delta = c.desired_replicas -ᵢ pos 0;
        running_delta = c.running_replicas -ᵢ pos 0;
      });
  image_change =
      if is_nil c.desired_image && is_nil c.actual_image
      then none
      else some (record {
        previous_desired = [];
        current_desired = c.desired_image;
        previous_actual = [];
        current_actual = c.actual_image;
      });
}

abbrev pub report_of_known : Text → ServiceHealth → ServiceHealth → ServiceTransition
report_of_known n p c = record {
  name = n;
  previous_status = if p.last_notified_status == unset then p.status else p.last_notified_status;
  current_status = c.status;
  reasons = c.reasons;
  drift = c.drift;
  replica_change = some (record {
    previous_desired = p.desired_replicas;
    current_desired = c.desired_replicas;
    previous_running = p.running_replicas;
    current_running = c.running_replicas;
    desired_delta = c.desired_replicas -ᵢ p.desired_replicas;
    running_delta = c.running_replicas -ᵢ p.running_replicas;
  });
  image_change = some (record {
    previous_desired = p.desired_image;
    current_desired = c.desired_image;
    previous_actual = p.actual_image;
    current_actual = c.actual_image;
  });
}

-- A service that is not in the snapshot is reported unless it is OK, on the first run and later; one that
-- is in it is reported if its status is not the one last notified, or else the one last seen.
abbrev pub due_report :
    Option ServiceHealth → Option ServiceHealth → Text → Option ServiceTransition
due_report prev none n = none
due_report none (some c) n = if c.status == ok then none else some (report_of_new n c)
due_report (some p) (some c) n =
    let report = report_of_known n p c in
    if c.status == report.previous_status then none else some report

pub first_run-lookup :
    (prev : Option StackSnapshot) (n : Text)
    → is_first_run prev ≡ true
    → lookup n (prev_services prev) ≡ none
unfolding lookup is_first_run prev_services
first_run-lookup none n first = refl
first_run-lookup (some snapshot) n first =
    elim snapshot.services as (λ services. is_nil services ≡ true → lookup n services ≡ none) [
      | [] ↦ λ first. refl
      | s ∷ services ↦ λ first. cc
    ]
      first

-- The tests of the loop and the transition that it appends, for one service.
tests_lem :
    (n : Text) (first_run : Bool) (prev : Option ServiceHealth) (c : ServiceHealth)
    → (first_run ≡ true → prev ≡ none)
    → (if is_skipped first_run prev c then none else some (service_transition n prev c))
      ≡ due_report prev (some c) n
unfolding is_skipped service_transition previous_status build_replica_change build_image_change
tests_lem n true none c fits = ground arith
tests_lem n false none c fits = ground arith
tests_lem n true (some p) c fits = absurd (ground (arith, fits refl))
tests_lem n false (some p) c fits =
    let known = previous_status p in
    elim (Bool-cases (known == c.status)) [
      | inl same ↦ ground (arith, (==_iff known c.status).0 same, (==_iff c.status known).1)
      | inr changed ↦ ground (arith, changed, ==_iff known c.status, ==_iff c.status known)
    ]

module _ (prev : Option StackSnapshot) (current : StackHealth)
    (u : NodupKeys current.services) where
  pub detect_service_transitions-due :
      (n : Text)
      → transition_of n (detect_service_transitions prev current)
        ≡ due_transition (is_first_run prev) (prev_services prev) current.services n
  unfolding detect_service_transitions
  detect_service_transitions-due n =
      find_by-sort_by (λ t. t.name) n
        (collect_transitions (is_first_run prev) (prev_services prev) current.services)
        (collect_transitions-IsDistinct (is_first_run prev) (prev_services prev) current.services u)
      ∙ transition_of-collect_transitions (is_first_run prev) (prev_services prev) current.services
          n u

  due_transition-report :
      (n : Text)
      → due_transition (is_first_run prev) (prev_services prev) current.services n
        ≡ due_report (lookup n (prev_services prev)) (lookup n current.services) n
  due_transition-report n = elim (Option-cases (lookup n current.services)) [
    | inl absent ↦ ground (arith, absent)
    | inr (c, found) ↦
        let first = is_first_run prev in
        let old = lookup n (prev_services prev) in
        ground (arith, found, tests_lem n first old c (first_run-lookup prev n))
  ]

  -- For maps in any order, the transitions are in ascending order of the names, no two of them have one
  -- name, and each name has the report that is due: none if the service is gone, is OK and not in the
  -- snapshot, or has the status last notified (where none is noted, the one last seen), and else one
  -- with the service's status, reasons, drift, replicas and images beside those of the snapshot.
  pub detect_service_transitions_lem :
      (n : Text)
      → (transition_of n (detect_service_transitions prev current)
          ≡ due_report (lookup n (prev_services prev)) (lookup n current.services) n)
        × IsSorted (λ t. t.name) (detect_service_transitions prev current)
        × IsDistinct (λ t. t.name) (detect_service_transitions prev current)
  unfolding detect_service_transitions
  detect_service_transitions_lem n =
      let collected =
        collect_transitions (is_first_run prev) (prev_services prev) current.services in
      (
        detect_service_transitions-due n ∙ due_transition-report n,
        sort_by-IsSorted (λ t. t.name) collected,
        sort_by-IsDistinct (λ t. t.name) collected
            (collect_transitions-IsDistinct (is_first_run prev) (prev_services prev)
              current.services u),
      )
