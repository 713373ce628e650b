-- ===== src/Metrics/Saved.antt =====
-- What the collectors of internal/metrics/metrics.go have from a cycle of internal/runner/runner.go
-- that has saved.
use swarm_sentinel.Base.{
  ℕ, ℤ, Text, text, text_eq, nat_eq, List, ◌++◌, Option, none, some, ◌==◌, ==_iff, ◌≡◌, ◌∙◌, ap,
  ◌+◌, if◌then◌else◌, refl, arith, true, false,
}
use swarm_sentinel.Compose.Types.{DesiredState}
use swarm_sentinel.Health.Types.{ok, degraded, failed, StackHealth}
use swarm_sentinel.Transition.Types.{ServiceTransition}
use swarm_sentinel.State.Types.{State}
use swarm_sentinel.Runner.Types.{Settings, Memory, World}
use swarm_sentinel.Runner.Cycle.{stack_key, count_status, record_metrics}
use swarm_sentinel.Runner.Phases.{health_of, evaluate_loaded, saved_cycle, with_records}
use swarm_sentinel.Metrics.Collectors.{Timed}
use swarm_sentinel.Metrics.Totals.{or_else, last_services, alerts_of}
use swarm_sentinel.Metrics.Cycles.{
  timed_effects, count_severity, last_services-append, alerts_of-append, between-services,
  between-alerts, count_alerts-services, count_alerts-alerts, notify_transitions-IsQuiet,
  cycle_records-IsQuiet,
}

-- The numbers of services that recordMetrics gives for the stack.
abbrev pub services_by_status : Text → StackHealth → Text → Text → Option ℕ
services_by_status key health stack status =
    if stack == key
    then (if status == text "failed"
        then some (count_status failed health.services)
        else if status == text "degraded"
        then some (count_status degraded health.services)
        else if status == text "ok"
        then some (count_status ok health.services)
        else none)
    else none

services_by_status-own :
    (key : Text) (health : StackHealth)
    → (services_by_status key health key (text "ok") ≡ some (count_status ok health.services))
      × (services_by_status key health key (text "degraded")
          ≡ some (count_status degraded health.services))
      × (services_by_status key health key (text "failed")
          ≡ some (count_status failed health.services))
unfolding text_eq nat_eq
services_by_status-own key health = ground (arith, (==_iff key key).1 refl)

module _ (duration ended_at : ℤ) (key : Text) (health : StackHealth)
    (ts : List ServiceTransition) where
  record_metrics-services :
      (stack status : Text)
      → last_services stack status
          (timed_effects duration ended_at (record_metrics true key health ts))
        ≡ services_by_status key health stack status
  unfolding record_metrics timed_effects last_services
  record_metrics-services stack status =
      rw (count_alerts-services duration ended_at key stack status ts) (ground arith)

  record_metrics-alerts :
      (stack severity : Text)
      → alerts_of stack severity
          (timed_effects duration ended_at (record_metrics true key health ts))
        ≡ (if stack == key then count_severity severity ts else 0)
  unfolding record_metrics timed_effects alerts_of
  record_metrics-alerts stack severity =
      ground (arith, count_alerts-alerts duration ended_at key stack severity ts)

module _ (duration ended_at : ℤ) (settings : Settings) (world : World) (memory : Memory)
    (desired : DesiredState) (found : State) where
  -- The updates of the cycle, and those of its recordMetrics.
  abbrev updates : List Timed
  unfolding timed_effects saved_cycle
  updates =
      timed_effects duration ended_at (saved_cycle settings world memory desired found).effects

  abbrev metrics : List Timed
  unfolding timed_effects record_metrics
  metrics = timed_effects duration ended_at (
      record_metrics settings.has_metrics (stack_key settings.stack_name)
        (health_of settings memory desired) (evaluate_loaded settings world memory desired found).1)

  updates-services :
      (stack status : Text)
      → last_services stack status updates ≡ last_services stack status metrics
  unfolding saved_cycle with_records updates timed_effects metrics
  updates-services stack status =
      between-services duration ended_at stack status _ _ _ _
        (notify_transitions-IsQuiet duration ended_at world.notify (stack_key settings.stack_name)
          (evaluate_loaded settings world memory desired found).1)
        (cycle_records-IsQuiet duration ended_at settings)

  updates-alerts :
      (stack severity : Text) → alerts_of stack severity updates ≡ alerts_of stack severity metrics
  unfolding saved_cycle with_records updates timed_effects metrics
  updates-alerts stack severity =
      between-alerts duration ended_at stack severity _ _ _ _
        (notify_transitions-IsQuiet duration ended_at world.notify (stack_key settings.stack_name)
          (evaluate_loaded settings world memory desired found).1)
        (cycle_records-IsQuiet duration ended_at settings)

  module _ (on : settings.has_metrics ≡ true) where
    saved-services :
        (stack status : Text)
        → last_services stack status updates
          ≡ services_by_status
              (stack_key settings.stack_name)
              (health_of settings memory desired)
              stack
              status
    unfolding metrics
    saved-services stack status =
        let key = stack_key settings.stack_name in
        let health = health_of settings memory desired in
        let ts = (evaluate_loaded settings world memory desired found).1 in
        updates-services stack status
        ∙ ap
            (λ has.
              last_services stack status
                (timed_effects duration ended_at (record_metrics has key health ts)))
            on
        ∙ record_metrics-services duration ended_at key health ts stack status

    saved-alerts :
        (stack severity : Text)
        → alerts_of stack severity updates ≡ (
            if stack == stack_key settings.stack_name
            then count_severity severity (evaluate_loaded settings world memory desired found).1
            else 0)
    unfolding metrics
    saved-alerts stack severity =
        let key = stack_key settings.stack_name in
        let health = health_of settings memory desired in
        let ts = (evaluate_loaded settings world memory desired found).1 in
        updates-alerts stack severity
        ∙ ap
            (λ has.
              alerts_of stack severity
                (timed_effects duration ended_at (record_metrics has key health ts)))
            on
        ∙ record_metrics-alerts duration ended_at key health ts stack severity

-- After the updates of a cycle that has saved, for a runner with metrics, the numbers of services of
-- its stack by status are those of the health that it has evaluated, its alerts have grown by the
-- transitions of each severity, and the numbers of the other stacks are as before.
pub saved_cycle-totals :
    (before : List Timed) (duration ended_at : ℤ) (settings : Settings) (world : World)
    (memory : Memory) (desired : DesiredState) (found : State)
    → settings.has_metrics ≡ true
    → let key = stack_key settings.stack_name in
      let services = (health_of settings memory desired).services in
      let transitions = (evaluate_loaded settings world memory desired found).1 in
      let cycle = saved_cycle settings world memory desired found in
      let after = before ++ timed_effects duration ended_at cycle.effects in
      (last_services key (text "ok") after ≡ some (count_status ok services))
      × (last_services key (text "degraded") after ≡ some (count_status degraded services))
      × (last_services key (text "failed") after ≡ some (count_status failed services))
      × ((severity : Text)
          → alerts_of key severity after
            ≡ alerts_of key severity before + count_severity severity transitions)
      × ((stack : Text)
          → (stack == key) ≡ false
          → ((status : Text) → last_services stack status after ≡ last_services stack status before)
            × ((severity : Text)
                → alerts_of stack severity after ≡ alerts_of stack severity before))
unfolding updates
saved_cycle-totals before duration ended_at settings world memory desired found on =
    let key = stack_key settings.stack_name in
    let health = health_of settings memory desired in
    let own = services_by_status-own key health in
    let us = updates duration ended_at settings world memory desired found in
    let services : (stack status : Text)
        → last_services stack status (before ++ us)
          ≡ or_else (services_by_status key health stack status)
              (last_services stack status before) =
      λ stack status.
        last_services-append stack status before us
        ∙ ap (λ n. or_else n (last_services stack status before))
            (saved-services duration ended_at settings world memory desired found on stack
              status) in
    let alerts = λ (stack severity : Text).
      alerts_of-append stack severity before us
      ∙ ap (λ n. alerts_of stack severity before + n)
          (saved-alerts duration ended_at settings world memory desired found on stack severity) in
    (
      services key (text "ok") ∙ ap (λ n. or_else n (last_services key (text "ok") before)) (own.0),
      services key (text "degraded")
          ∙ ap (λ n. or_else n (last_services key (text "degraded") before)) (own.1),
      services key (text "failed")
          ∙ ap (λ n. or_else n (last_services key (text "failed") before)) (own.2),
      λ severity. alerts key severity ∙ rw ((==_iff key key).1 refl) refl,
      λ stack other. (
        λ status. services stack status ∙ rw other refl,
        λ severity. alerts stack severity ∙ rw other (omega arith),
      ),
    )
