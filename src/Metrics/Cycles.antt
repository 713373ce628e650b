-- ===== src/Metrics/Cycles.antt =====
-- What a cycle of internal/runner/runner.go that has saved adds to the collectors of
-- internal/metrics/metrics.go.
use swarm_sentinel.Base.{
  ℕ, ℤ, Text, text, text_eq, nat_eq, to_lower, List, [], ◌∷◌, ◌++◌, Option, none, some, ◌==◌, ◌≡◌,
  ap, ◌+◌, if◌then◌else◌, refl, arith, is_nil, All,
}
use swarm_sentinel.Health.Types.{ServiceStatus, ok, degraded, failed, other, status_text}
use swarm_sentinel.Transition.Types.{ServiceTransition}
use swarm_sentinel.State.Types.{State}
use swarm_sentinel.Runner.Types.{
  Effect, saved, services_total, alerts_total, docker_api_error, notified, cycle_recorded,
  cycle_observed, Settings,
}
use swarm_sentinel.Runner.Cycle.{count_alerts, notify_transitions, cycle_records}
use swarm_sentinel.Metrics.Collectors.{Timed}
use swarm_sentinel.Metrics.Totals.{or_else, services_in, alerts_in, last_services, alerts_of}

-- The effects of a cycle that took so long and ended at this second.
unfoldable pub timed_effects : ℤ → ℤ → List Effect → List Timed
timed_effects duration ended_at [] = []
timed_effects duration ended_at (e ∷ es) =
    record { effect = e; duration = duration; ended_at = ended_at }
    ∷ timed_effects duration ended_at es

-- The severity under which a transition to this status is counted.
unfoldable pub severity_of : ServiceStatus → Text
unfolding to_lower
severity_of ok = text "ok"
severity_of degraded = text "degraded"
severity_of failed = text "failed"
severity_of (other t) = if is_nil (to_lower t) then text "unknown" else to_lower t

unfoldable pub count_severity : Text → List ServiceTransition → ℕ
unfolding severity_of
count_severity severity [] = 0
count_severity severity (t ∷ ts) =
    (if severity == severity_of t.current_status then 1 else 0) + count_severity severity ts

-- The effect is neither a number of services nor an alert.
abbrev pub IsQuiet : Effect → Type 0
IsQuiet (services_total _ _ _) = ⊥
IsQuiet (alerts_total _ _) = ⊥
IsQuiet _ = Unit

pub last_services-append :
    (stack status : Text) (ts us : List Timed)
    → last_services stack status (ts ++ us)
      ≡ or_else (last_services stack status us) (last_services stack status ts)
unfolding last_services
last_services-append stack status [] us = ground arith
last_services-append stack status (t ∷ ts) us =
    ground (arith, last_services-append stack status ts us)

pub alerts_of-append :
    (stack severity : Text) (ts us : List Timed)
    → alerts_of stack severity (ts ++ us)
      ≡ alerts_of stack severity ts + alerts_of stack severity us
unfolding alerts_of
alerts_of-append stack severity [] us = omega arith
alerts_of-append stack severity (t ∷ ts) us = omega (arith, alerts_of-append stack severity ts us)

module _ (duration ended_at : ℤ) where
  timed_effects-append :
      (es fs : List Effect)
      → timed_effects duration ended_at (es ++ fs)
        ≡ timed_effects duration ended_at es ++ timed_effects duration ended_at fs
  unfolding timed_effects
  timed_effects-append [] fs = refl
  timed_effects-append (e ∷ es) fs =
      ap (λ ts. record { effect = e; duration = duration; ended_at = ended_at } ∷ ts)
        (timed_effects-append es fs)

  services_in-quiet :
      (stack status : Text) (e : Effect) → IsQuiet e → services_in stack status e ≡ none
  services_in-quiet stack status (services_total _ _ _) quiet = absurd quiet
  services_in-quiet stack status (alerts_total _ _) quiet = refl
  services_in-quiet stack status (saved _) quiet = refl
  services_in-quiet stack status docker_api_error quiet = refl
  services_in-quiet stack status (notified _ _) quiet = refl
  services_in-quiet stack status (cycle_recorded _) quiet = refl
  services_in-quiet stack status cycle_observed quiet = refl

  alerts_in-quiet :
      (stack severity : Text) (e : Effect) → IsQuiet e → alerts_in stack severity e ≡ 0
  alerts_in-quiet stack severity (services_total _ _ _) quiet = refl
  alerts_in-quiet stack severity (alerts_total _ _) quiet = absurd quiet
  alerts_in-quiet stack severity (saved _) quiet = refl
  alerts_in-quiet stack severity docker_api_error quiet = refl
  alerts_in-quiet stack severity (notified _ _) quiet = refl
  alerts_in-quiet stack severity (cycle_recorded _) quiet = refl
  alerts_in-quiet stack severity cycle_observed quiet = refl

  last_services-quiet :
      (stack status : Text) (es : List Effect)
      → All IsQuiet es
      → last_services stack status (timed_effects duration ended_at es) ≡ none
  unfolding timed_effects last_services
  last_services-quiet stack status [] quiet = refl
  last_services-quiet stack status (e ∷ es) (here, quiet) =
      rw (last_services-quiet stack status es quiet) (services_in-quiet stack status e here)

  alerts_of-quiet :
      (stack severity : Text) (es : List Effect)
      → All IsQuiet es
      → alerts_of stack severity (timed_effects duration ended_at es) ≡ 0
  unfolding timed_effects alerts_of
  alerts_of-quiet stack severity [] quiet = refl
  alerts_of-quiet stack severity (e ∷ es) (here, quiet) =
      omega (arith, alerts_of-quiet stack severity es quiet, alerts_in-quiet stack severity e here)

  pub count_alerts-services :
      (stack m status : Text) (ts : List ServiceTransition)
      → last_services m status (timed_effects duration ended_at (count_alerts stack ts)) ≡ none
  unfolding timed_effects last_services count_alerts
  count_alerts-services stack m status [] = refl
  count_alerts-services stack m status (t ∷ ts) = rw (count_alerts-services stack m status ts) refl

  -- recordMetrics lower-cases the text of the status.
  alerted_lem :
      (status : ServiceStatus)
      → let severity = to_lower (status_text status) in
        (if is_nil severity then text "unknown" else severity) ≡ severity_of status
  unfolding severity_of to_lower
  alerted_lem ok = refl
  alerted_lem degraded = refl
  alerted_lem failed = refl
  alerted_lem (other t) = refl

  pub count_alerts-alerts :
      (stack m severity : Text) (ts : List ServiceTransition)
      → alerts_of m severity (timed_effects duration ended_at (count_alerts stack ts))
        ≡ (if m == stack then count_severity severity ts else 0)
  unfolding timed_effects alerts_of count_alerts count_severity
  count_alerts-alerts stack m severity [] = ground arith
  count_alerts-alerts stack m severity (t ∷ ts) =
      let e = alerted_lem t.current_status in
      rw e (ground (arith, count_alerts-alerts stack m severity ts))

  pub notify_transitions-IsQuiet :
      (notify : Option (Text → List ServiceTransition → Option Text)) (stack : Text)
      (ts : List ServiceTransition)
      → All IsQuiet (notify_transitions notify stack ts)
  unfolding notify_transitions
  notify_transitions-IsQuiet none stack ts = tt
  notify_transitions-IsQuiet (some notify) stack [] = tt
  notify_transitions-IsQuiet (some notify) stack (t ∷ ts) = (tt, tt)

  pub cycle_records-IsQuiet : (settings : Settings) → All IsQuiet (cycle_records settings)
  unfolding cycle_records
  cycle_records-IsQuiet settings = ground arith

  -- Between quiet effects the metrics alone count.
  pub between-services :
      (stack status : Text) (next : State) (ms ns rs : List Effect)
      → All IsQuiet ns
      → All IsQuiet rs
      → last_services stack status
          (timed_effects duration ended_at (saved next ∷ ((ms ++ ns) ++ rs)))
        ≡ last_services stack status (timed_effects duration ended_at ms)
  unfolding timed_effects last_services
  between-services stack status next ms ns rs quiet quiet' =
      let all = timed_effects-append (ms ++ ns) rs in
      let most = timed_effects-append ms ns in
      rw
        (
          all,
          most,
          last_services-append stack status
              (timed_effects duration ended_at ms ++ timed_effects duration ended_at ns)
              (timed_effects duration ended_at rs),
          last_services-append stack status (timed_effects duration ended_at ms)
              (timed_effects duration ended_at ns),
          last_services-quiet stack status ns quiet,
          last_services-quiet stack status rs quiet',
        )
        (ground arith)

  pub between-alerts :
      (stack severity : Text) (next : State) (ms ns rs : List Effect)
      → All IsQuiet ns
      → All IsQuiet rs
      → alerts_of stack severity (timed_effects duration ended_at (saved next ∷ ((ms ++ ns) ++ rs)))
        ≡ alerts_of stack severity (timed_effects duration ended_at ms)
  unfolding timed_effects alerts_of
  between-alerts stack severity next ms ns rs quiet quiet' =
      let all = timed_effects-append (ms ++ ns) rs in
      let most = timed_effects-append ms ns in
      rw
        (
          all,
          most,
          alerts_of-append stack severity
              (timed_effects duration ended_at ms ++ timed_effects duration ended_at ns)
              (timed_effects duration ended_at rs),
          alerts_of-append stack severity (timed_effects duration ended_at ms)
              (timed_effects duration ended_at ns),
          alerts_of-quiet stack severity ns quiet,
          alerts_of-quiet stack severity rs quiet',
        )
        (omega arith)
