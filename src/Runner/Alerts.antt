-- ===== src/Runner/Alerts.antt =====
-- What stabilizeTransitions persists and reports for each service, in whatever order the map of
-- services is walked.
use swarm_sentinel.Base.{
  ℤ, pos, negsuc, zero, suc, Text, text_eq, [], Option, none, some, Option-cases, inl, inr, Bool,
  true, false, not, ◌&&◌, ◌||◌, ◌==◌, ◌≡◌, ◌∙◌, refl, leb_ℤ, ◌+ᵢ◌, ==_iff, Bool-cases, ltb_ℤ, sym,
  arith, if◌then◌else◌,
}
use swarm_sentinel.Base.Dict.{lookup, NodupKeys}
use swarm_sentinel.Base.Sort.{IsSorted}
use swarm_sentinel.Health.Types.{ServiceStatus, ok, unset, ServiceHealth, StackHealth, status_eq}
use swarm_sentinel.State.Types.{StackSnapshot}
use swarm_sentinel.Transition.Types.{ServiceTransition}
use swarm_sentinel.Transition.Detect.{
  prev_services, is_first_run, is_skipped, previous_status, service_transition,
}
use swarm_sentinel.Transition.Laws.{
  transition_of, due_transition, detect_service_transitions-due, detect_service_transitions_lem,
  first_run-lookup,
}
use swarm_sentinel.Runner.Sorted.{
  lookup-stabilize_services_kept, lookup-stabilize_services_eligible, stabilize_services-NodupKeys,
}
use swarm_sentinel.Runner.Stabilize.{
  effective_cycles, consecutive, last_notified, should_notify, observed, updated,
  stabilize_services, stabilize_transitions,
}

-- A service alerts on the first run unless it is OK. Later a known service alerts if its status is
-- not the one last notified and has lasted the cycles asked for, and a new one if it is neither OK
-- nor without status and a single cycle is asked for.
abbrev pub is_alert : ℤ → Bool → Option ServiceHealth → ServiceStatus → Bool
is_alert cycles true prev status = not (status == ok)
is_alert cycles false (some prev) status =
    not (status == previous_status prev)
    && (leb_ℤ cycles (pos 1) || leb_ℤ cycles (consecutive (some prev) status))
is_alert cycles false none status =
    not (status == ok) && not (status == unset) && leb_ℤ cycles (pos 1)

-- The report that is due for a service: none if it is not evaluated or not to alert.
abbrev pub due_alert :
    ℤ → Bool → Option ServiceHealth → Option ServiceHealth → Text → Option ServiceTransition
due_alert cycles first_run prev none n = none
due_alert cycles first_run prev (some s) n =
    if is_alert cycles first_run prev s.status
    then some (service_transition n prev (observed prev s))
    else none

-- How many cycles in a row have had the status: one more than the last number, which counts as at least
-- 1, while it stays the same, and else 1.
abbrev pub streak : Option ServiceHealth → ServiceStatus → ℤ
streak none status = pos 1
streak (some p) status =
    if status == p.status
    then (if leb_ℤ p.consecutive_cycles (pos 1) then pos 1 else p.consecutive_cycles) +ᵢ pos 1
    else pos 1

-- The status that the user knows of after the cycle. A known service keeps the one that was known, unless
-- it has another that has lasted the cycles asked for; a new one has none on the first run while it is OK,
-- nor later where more than one cycle is asked for.
abbrev pub status_known : ℤ → Bool → Option ServiceHealth → ServiceStatus → ServiceStatus
status_known cycles first_run (some p) status =
    if leb_ℤ cycles (pos 1) || leb_ℤ cycles (streak (some p) status)
    then status
    else if p.last_notified_status == unset
    then p.status
    else p.last_notified_status
status_known cycles true none status = if status == ok then unset else status
status_known cycles false none status = if leb_ℤ cycles (pos 1) then status else unset

-- A service as it is to be persisted.
abbrev pub persisted_service :
    ℤ → Bool → Option ServiceHealth → Option ServiceHealth → Option ServiceHealth
persisted_service cycles first_run prev none = none
persisted_service cycles first_run prev (some s) = some (record s {
  consecutive_cycles = streak prev s.status;
  last_notified_status = status_known cycles first_run prev s.status;
})

two_lem : pos 1 +ᵢ pos 1 ≡ pos 2
unfolding ◌+ᵢ◌
two_lem = refl

next_lem :
    (cycles : ℤ)
    → (if ltb_ℤ (pos 0) cycles then cycles +ᵢ pos 1 else pos 2)
      ≡ (if leb_ℤ cycles (pos 1) then pos 1 else cycles) +ᵢ pos 1
next_lem (pos zero) = sym two_lem
next_lem (pos (suc zero)) = refl
next_lem (pos (suc (suc n))) = ground arith
next_lem (negsuc n) = ground (arith, two_lem)

streak_lem :
    (prev : Option ServiceHealth) (status : ServiceStatus)
    → consecutive prev status ≡ streak prev status
unfolding consecutive
streak_lem none status = refl
streak_lem (some p) status =
    let one = next_lem p.consecutive_cycles in
    elim (Bool-cases (p.status == status)) [
      | inl same ↦ ground (arith, one, (==_iff p.status status).0 same, (==_iff status p.status).1)
      | inr changed ↦ ground (arith, changed, ==_iff p.status status, ==_iff status p.status)
    ]

updated_lem :
    (cycles : ℤ) (first_run : Bool) (prev : Option ServiceHealth) (s : ServiceHealth)
    → (first_run ≡ true → prev ≡ none)
    → some (updated cycles first_run prev s) ≡ persisted_service cycles first_run prev (some s)
unfolding updated observed should_notify last_notified
updated_lem cycles true none s fits = ground (arith, streak_lem none s.status, ==_iff s.status ok)
updated_lem cycles false none s fits = ground (arith, streak_lem none s.status)
updated_lem cycles true (some p) s fits = absurd (ground (arith, fits refl))
updated_lem cycles false (some p) s fits =
    let lasts = streak_lem (some p) s.status in
    let known = last_notified (some p) in
    elim (Bool-cases (s.status == known)) [
      | inl same ↦ ground (arith, lasts, (==_iff s.status known).0 same)
      | inr changed ↦ ground (arith, lasts, changed)
    ]

alert_lem :
    (cycles : ℤ) (first_run : Bool) (prev : Option ServiceHealth) (s : ServiceHealth)
    → (should_notify cycles first_run prev s.status
        && not (is_skipped first_run prev (observed prev s)))
      ≡ is_alert cycles first_run prev s.status
unfolding should_notify is_skipped observed last_notified previous_status consecutive
alert_lem cycles true prev s = ground arith
alert_lem cycles false none s = ground arith
alert_lem cycles false (some p) s = ground arith

module _ (stabilization : ℤ) (prev : Option StackSnapshot) (current : StackHealth)
    (u : NodupKeys current.services) where
  pub stabilize_transitions-updated :
      (n : Text)
      → lookup n (stabilize_transitions stabilization prev current).0
        ≡ elim (lookup n current.services) [
          | none ↦ none
          | some s ↦ some (
              updated
                (effective_cycles stabilization)
                (is_first_run prev)
                (lookup n (prev_services prev))
                s)
        ]
  unfolding stabilize_transitions lookup
  stabilize_transitions-updated n =
      lookup-stabilize_services_kept (effective_cycles stabilization) (is_first_run prev)
        (prev_services prev) current.services [] [] n u

  -- Every evaluated service is persisted as it is, but for its streak, which is one longer or begins anew,
  -- and the status last notified, which is the one that the user knows of after the cycle; and no other
  -- service is.
  pub stabilize_transitions-kept :
      (n : Text)
      → lookup n (stabilize_transitions stabilization prev current).0
        ≡ persisted_service
            (effective_cycles stabilization)
            (is_first_run prev)
            (lookup n (prev_services prev))
            (lookup n current.services)
  stabilize_transitions-kept n = elim (Option-cases (lookup n current.services)) [
    | inl absent ↦ ground (arith, absent, stabilize_transitions-updated n)
    | inr (s, found) ↦
        let cycles = effective_cycles stabilization in
        let first = is_first_run prev in
        let old = lookup n (prev_services prev) in
        let kept = updated_lem cycles first old s (first_run-lookup prev n) in
        ground (arith, found, stabilize_transitions-updated n, kept)
  ]

  due_transition-alert :
      (n : Text)
      → due_transition
          (is_first_run prev)
          (prev_services prev)
          (stabilize_services
            (effective_cycles stabilization)
            (is_first_run prev)
            (prev_services prev)
            current.services
            ([], [])).1
          n
        ≡ due_alert
            (effective_cycles stabilization)
            (is_first_run prev)
            (lookup n (prev_services prev))
            (lookup n current.services)
            n
  unfolding lookup
  due_transition-alert n =
      let cycles = effective_cycles stabilization in
      let first = is_first_run prev in
      let old = prev_services prev in
      let eligible =
        lookup-stabilize_services_eligible cycles first old current.services [] [] n u in
      elim (Option-cases (lookup n current.services)) [
        | inl absent ↦ ground (arith, eligible)
        | inr (s, found) ↦ ground (arith, eligible, alert_lem cycles first (lookup n old) s)
      ]

  -- A service is reported exactly if it is to alert, with the details of its transition, and the
  -- reports are in ascending order of the names.
  pub stabilize_transitions-alerts :
      (n : Text)
      → (transition_of n (stabilize_transitions stabilization prev current).1
          ≡ due_alert
              (effective_cycles stabilization)
              (is_first_run prev)
              (lookup n (prev_services prev))
              (lookup n current.services)
              n)
        × IsSorted (λ t. t.name) (stabilize_transitions stabilization prev current).1
  unfolding stabilize_transitions
  stabilize_transitions-alerts n =
      let cycles = effective_cycles stabilization in
      let sorted =
        stabilize_services cycles (is_first_run prev) (prev_services prev) current.services
          ([], []) in
      let health : StackHealth = record { status = current.status; services = sorted.1 } in
      let distinct =
        stabilize_services-NodupKeys cycles (is_first_run prev) (prev_services prev)
          current.services [] [] tt in
      (
        detect_service_transitions-due prev health distinct n ∙ due_transition-alert n,
        (detect_service_transitions_lem prev health distinct n).1,
      )
