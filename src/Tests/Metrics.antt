-- ===== src/Tests/Metrics.antt =====
-- Collectors that keep what they are given, and the updates of two cycles.
use mathlib.Core.Option
use swarm_sentinel.Base.{
  ℤ, pos, true, false, ◌==◌, ◌+◌, Text, text, text_eq, nat_eq, List, [], ◌∷◌, ◌++◌, map, some, ◌≡◌,
  refl, All, success, ◌>>=◌,
}
use swarm_sentinel.Runner.Types.{
  Effect, services_total, alerts_total, docker_api_error, cycle_observed,
}
use swarm_sentinel.Metrics.Client.{
  Descriptor, View, blank, with_gauge, with_count, with_observed, Prometheus, IsDocumented,
  is_valid, is_utf8_from, gauge, histogram,
}
use swarm_sentinel.Metrics.Collectors.{
  Timed, new_metrics, publish_all, services_total_name, alerts_total_name, docker_api_errors_total,
  last_successful_cycle_timestamp, cycle_duration_seconds,
}
use swarm_sentinel.Metrics.Totals.{last_services, alerts_of, api_errors_of, last_end, durations}
use swarm_sentinel.Metrics.Published.{HasUtf8Labels}
use swarm_sentinel.Metrics.Readings.{publish_all_lem}
use swarm_sentinel.Health.Types.{ok, degraded, failed}
use swarm_sentinel.Runner.Types.{Settings, Cycle}
use swarm_sentinel.Runner.Cycle.{stack_key, count_status}
use swarm_sentinel.Runner.Phases.{health_of, evaluate_loaded, saved_cycle}
use swarm_sentinel.Metrics.Cycles.{timed_effects, count_severity}
use swarm_sentinel.Metrics.Saved.{saved_cycle-totals}
use swarm_sentinel.Tests.Coordinator.{a_world, no_state}
use swarm_sentinel.Tests.Threads.{wanted, refreshed}

record Kept : Type 0 where
  descriptors : List Descriptor
  view : View ℤ

abbrev keeping : Prometheus
keeping = record {
  Registry = Kept;
  Float = ℤ;
  float64 = λ n. n;
  seconds = λ n. n;
  must_register = λ ds. success (record { descriptors = ds; view = blank });
  set = λ name labels value r. success (record r { view = with_gauge name labels value r.view });
  inc = λ name labels r. success (record r { view = with_count name labels r.view });
  observe = λ name value r. success (record r { view = with_observed name value r.view });
  described = λ r. r.descriptors;
  shows = λ r. r.view;
}

keeping-IsDocumented : IsDocumented keeping
keeping-IsDocumented = record {
  registers = λ ds distinct valid. (_, refl, refl, refl);
  sets = λ name labels value r described utf8. (_, refl, refl, refl);
  increments = λ name labels r described utf8. (_, refl, refl, refl);
  observes = λ name value r described. (_, refl, refl, refl);
}

abbrev timed : Effect → Timed
timed e = record { effect = e; duration = pos 5; ended_at = pos 100 }

abbrev updates : List Timed
updates = map timed (
    services_total (text "shop") (text "ok") 2
    ∷ alerts_total (text "shop") (text "failed")
    ∷ cycle_observed
    ∷ docker_api_error
    ∷ services_total (text "shop") (text "ok") 3
    ∷ [])

updates-HasUtf8Labels : All HasUtf8Labels updates
updates-HasUtf8Labels = ((refl, refl), ((refl, refl), (tt, (tt, ((refl, refl), tt)))))

-- Names of labels that occur twice or are reserved, and texts that are not UTF-8 or are.
invalid_labels :
    (is_valid (record { kind = gauge; name = text "a"; labels = text "b" ∷ text "b" ∷ [] }) ≡ false)
    × (is_valid (record { kind = gauge; name = text "a"; labels = text "__b" ∷ [] }) ≡ false)
    × (is_valid (record { kind = histogram; name = text "a"; labels = text "le" ∷ [] }) ≡ false)
unfolding is_valid text_eq nat_eq
invalid_labels = (refl, refl, refl)

utf8_texts :
    (is_utf8_from [] (237 ∷ 160 ∷ 128 ∷ []) ≡ false)
    × (is_utf8_from [] (192 ∷ 128 ∷ []) ≡ false)
    × (is_utf8_from [] (195 ∷ []) ≡ false)
    × (is_utf8_from [] (195 ∷ 188 ∷ 240 ∷ 159 ∷ 152 ∷ 128 ∷ []) ≡ true)
utf8_texts = (refl, refl, refl, refl)

publish_all_lem_example :
    (r : keeping.Registry) × ((new_metrics keeping >>= λ m. publish_all keeping updates m)
      ≡ success (some r))
    × ((stack status : Text)
        → (keeping.shows r).gauges services_total_name (stack ∷ status ∷ [])
          ≡ Option.map (λ n. keeping.float64 (pos n)) (last_services stack status updates))
    × ((stack severity : Text)
        → (keeping.shows r).counts alerts_total_name (stack ∷ severity ∷ [])
          ≡ alerts_of stack severity updates)
    × ((keeping.shows r).counts docker_api_errors_total [] ≡ api_errors_of updates)
    × ((keeping.shows r).observed cycle_duration_seconds ≡ map keeping.seconds (durations updates))
    × ((keeping.shows r).gauges last_successful_cycle_timestamp []
        ≡ Option.map keeping.float64 (last_end updates))
publish_all_lem_example = publish_all_lem keeping keeping-IsDocumented updates updates-HasUtf8Labels

abbrev metered : Settings
metered = record {
  poll_interval = pos 30;
  stack_name = text "shop";
  alert_stabilization_cycles = pos 2;
  stacks_evaluated = pos 2;
  has_cycle_tracker = false;
  has_metrics = true;
}

abbrev a_cycle : Cycle
a_cycle = saved_cycle metered a_world refreshed wanted no_state

abbrev after_cycle : List Timed
after_cycle = updates ++ timed_effects (pos 5) (pos 200) a_cycle.effects

saved_cycle-totals_example :
    let key = stack_key metered.stack_name in
    let services = (health_of metered refreshed wanted).services in
    let transitions = (evaluate_loaded metered a_world refreshed wanted no_state).1 in
    (last_services key (text "ok") after_cycle ≡ some (count_status ok services))
    × (last_services key (text "degraded") after_cycle ≡ some (count_status degraded services))
    × (last_services key (text "failed") after_cycle ≡ some (count_status failed services))
    × ((severity : Text)
        → alerts_of key severity after_cycle
          ≡ alerts_of key severity updates + count_severity severity transitions)
    × ((stack : Text)
        → (stack == key) ≡ false
        → ((status : Text)
            → last_services stack status after_cycle ≡ last_services stack status updates)
          × ((severity : Text)
              → alerts_of stack severity after_cycle ≡ alerts_of stack severity updates))
saved_cycle-totals_example =
    saved_cycle-totals updates (pos 5) (pos 200) metered a_world refreshed wanted no_state refl
