-- ===== src/Metrics/Collectors.antt =====
-- internal/metrics/metrics.go, and the calls that internal/runner/runner.go makes of it.
use swarm_sentinel.Base.{
  ℤ, pos, Text, text, List, [], ◌∷◌, Option, none, some, Result, success, ◌>>=◌,
}
use swarm_sentinel.Runner.Types.{
  Effect, saved, services_total, alerts_total, docker_api_error, notified, cycle_recorded,
  cycle_observed,
}
use swarm_sentinel.Metrics.Client.{Descriptor, histogram, gauge, counter, Prometheus}

abbrev pub cycle_duration_seconds : Text
cycle_duration_seconds = text "swarm_sentinel_cycle_duration_seconds"

abbrev pub services_total_name : Text
services_total_name = text "swarm_sentinel_services_total"

abbrev pub alerts_total_name : Text
alerts_total_name = text "swarm_sentinel_alerts_total"

abbrev pub docker_api_errors_total : Text
docker_api_errors_total = text "swarm_sentinel_docker_api_errors_total"

abbrev pub last_successful_cycle_timestamp : Text
last_successful_cycle_timestamp = text "swarm_sentinel_last_successful_cycle_timestamp"

-- The collectors of New.
abbrev pub collectors : List Descriptor
collectors =
    record { kind = histogram; name = cycle_duration_seconds; labels = [] }
    ∷ record {
      kind = gauge;
      name = services_total_name;
      labels = text "stack" ∷ text "status" ∷ [];
    }
    ∷ record {
      kind = counter;
      name = alerts_total_name;
      labels = text "stack" ∷ text "severity" ∷ [];
    }
    ∷ record { kind = counter; name = docker_api_errors_total; labels = [] }
    ∷ record { kind = gauge; name = last_successful_cycle_timestamp; labels = [] }
    ∷ []

-- An update of a collector with its time: how long the cycle took, and the Unix second of its end.
pub record Timed : Type 0 where
  pub effect : Effect
  pub duration : ℤ
  pub ended_at : ℤ

module _ (p : Prometheus) where
  -- *Metrics, which may be nil
  abbrev pub Metrics : Type 0
  Metrics = Option p.Registry

  unfoldable pub new_metrics : Result Text Metrics
  new_metrics = p.must_register collectors >>= λ r. success (some r)

  unfoldable pub observe_cycle_duration : ℤ → Metrics → Result Text Metrics
  observe_cycle_duration duration none = success none
  observe_cycle_duration duration (some r) =
      p.observe cycle_duration_seconds (p.seconds duration) r >>= λ s. success (some s)

  unfoldable pub set_services_total : Text → Text → ℤ → Metrics → Result Text Metrics
  set_services_total stack status value none = success none
  set_services_total stack status value (some r) =
      p.set services_total_name (stack ∷ status ∷ []) (p.float64 value) r >>= λ s. success (some s)

  unfoldable pub inc_alerts_total : Text → Text → Metrics → Result Text Metrics
  inc_alerts_total stack severity none = success none
  inc_alerts_total stack severity (some r) =
      p.inc alerts_total_name (stack ∷ severity ∷ []) r >>= λ s. success (some s)

  unfoldable pub inc_docker_api_errors : Metrics → Result Text Metrics
  inc_docker_api_errors none = success none
  inc_docker_api_errors (some r) = p.inc docker_api_errors_total [] r >>= λ s. success (some s)

  unfoldable pub set_last_successful_cycle_timestamp : ℤ → Metrics → Result Text Metrics
  set_last_successful_cycle_timestamp unix none = success none
  set_last_successful_cycle_timestamp unix (some r) =
      p.set last_successful_cycle_timestamp [] (p.float64 unix) r >>= λ s. success (some s)

  -- What the runner calls for an effect of its cycle.
  unfoldable pub publish : Timed → Metrics → Result Text Metrics
  unfolding observe_cycle_duration set_services_total inc_alerts_total inc_docker_api_errors
      set_last_successful_cycle_timestamp
  publish t m = elim t.effect [
    | saved _ ↦ success m
    | services_total stack status n ↦ set_services_total stack status (pos n) m
    | alerts_total stack severity ↦ inc_alerts_total stack severity m
    | docker_api_error ↦ inc_docker_api_errors m
    | notified _ _ ↦ success m
    | cycle_recorded _ ↦ success m
    | cycle_observed ↦ observe_cycle_duration t.duration m >>= λ n.
        set_last_successful_cycle_timestamp t.ended_at n
  ]

  unfoldable pub publish_all : List Timed → Metrics → Result Text Metrics
  unfolding publish
  publish_all [] m = success m
  publish_all (t ∷ ts) m = publish t m >>= λ n. publish_all ts n
