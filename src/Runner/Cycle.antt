-- ===== src/Runner/Cycle.antt =====
-- One cycle, and the loop of cycles: internal/runner/runner.go.
use mathlib.Core.Option
use swarm_sentinel.Base.{
  ℕ, ◌+◌, pos, Text, text, text_eq, to_lower, List, [], ◌∷◌, ◌++◌, Option, none, some, Bool, true,
  false, not, ◌==◌, is_nil, leb_ℤ, Result, success, failure, if◌then◌else◌,
}
use swarm_sentinel.Base.Dict.{Dict, lookup, insert}
use swarm_sentinel.Compose.Types.{DesiredState, FetchResult}
use swarm_sentinel.Compose.Parse.{parse_desired_state}
use swarm_sentinel.Health.Types.{
  ServiceStatus, ok, degraded, failed, ServiceHealth, StackHealth, status_eq, status_text,
}
use swarm_sentinel.Health.Evaluate.{evaluate_stack_health}
use swarm_sentinel.State.Types.{State}
use swarm_sentinel.Transition.Types.{ServiceTransition}
use swarm_sentinel.Runner.Types.{
  CycleError, external, compose_empty, bad_interval, compose_invalid, runtime, Settings, Memory,
  Store, World, Effect, saved, services_total, alerts_total, docker_api_error, notified,
  cycle_recorded, cycle_observed, Cycle,
}
use swarm_sentinel.Runner.Stabilize.{stabilize_transitions}

-- stackKey
unfoldable pub stack_key : Text → Text
stack_key stack_name = if is_nil stack_name then text "default" else stack_name

-- compose.Fingerprint
unfoldable pub fingerprint : (Text → Text) → Text → Result CycleError Text
fingerprint sha256_hex body =
    if is_nil body then failure compose_empty else success (sha256_hex body)

-- The services with a status, as recordMetrics and logCycleSummary count them.
unfoldable pub count_status : ServiceStatus → Dict Text ServiceHealth → ℕ
count_status status [] = 0
count_status status ((_, h) ∷ services) =
    (if h.status == status then 1 else 0) + count_status status services

unfoldable pub count_alerts : Text → List ServiceTransition → List Effect
count_alerts stack [] = []
count_alerts stack (t ∷ ts) =
    let severity = to_lower (status_text t.current_status) in
    alerts_total stack (if is_nil severity then text "unknown" else severity)
    ∷ count_alerts stack ts

-- recordMetrics
unfoldable pub record_metrics : Bool → Text → StackHealth → List ServiceTransition → List Effect
unfolding count_status count_alerts
record_metrics false stack health transitions = []
record_metrics true stack health transitions =
    services_total stack (text "ok") (count_status ok health.services)
    ∷ services_total stack (text "degraded") (count_status degraded health.services)
    ∷ services_total stack (text "failed") (count_status failed health.services)
    ∷ count_alerts stack transitions

-- The call of the notifier; its error is only logged.
unfoldable pub notify_transitions :
    Option (Text → List ServiceTransition → Option Text)
    → Text
    → List ServiceTransition
    → List Effect
notify_transitions none stack transitions = []
notify_transitions (some notify) stack [] = []
notify_transitions (some notify) stack (t ∷ ts) = notified stack (t ∷ ts) ∷ []

-- The state with the snapshot of this stack put in.
unfoldable pub with_snapshot : Text → Text → ℕ → Dict Text ServiceHealth → State → State
with_snapshot key hash now services state = record state {
  stacks =
      insert key (record { desired_fingerprint = hash; services = services; evaluated_at = now })
        state.stacks;
}

-- evaluateAndPersist, once the desired state and the store are there: load, stabilise and save
-- under the lock, then metrics and notices.
unfoldable pub evaluate_and_persist :
    Settings → World → Memory → DesiredState → Store → List Effect × Option CycleError
evaluate_and_persist settings world memory desired store =
    let key = stack_key settings.stack_name in
    let health =
      evaluate_stack_health desired memory.last_actual_state (not (is_nil settings.stack_name)) in
    elim store.load [
      | failure e ↦ ([], some (runtime (text "state load") (external e)))
      | success loaded ↦
          let (services, transitions) =
            stabilize_transitions settings.alert_stabilization_cycles (lookup key loaded.stacks)
              health in
          let next = with_snapshot key memory.compose_hash world.now services loaded in
          elim (store.save next) [
            | some e ↦ ([], some (runtime (text "state save") (external e)))
            | none ↦ (
              saved next
                  ∷ (record_metrics settings.has_metrics key health transitions
                      ++ notify_transitions world.notify key transitions),
              none,
            )
          ]
    ]

-- A compose body that came with a new fetch.
unfoldable pub accept_body : World → Text → Memory → Memory × Option CycleError
accept_body world body memory = elim (fingerprint world.sha256_hex body) [
  | failure e ↦ (memory, some (runtime (text "compose fingerprint") e))
  | success hash ↦
      if hash == memory.compose_hash
      then (memory, none)
      else let hashed = record memory { compose_hash = hash } in
        elim (parse_desired_state world.load_project body) [
          | failure e ↦ (hashed, some (runtime (text "compose parse") (compose_invalid e)))
          | success desired ↦ (record hashed { last_desired_state = some desired }, none)
        ]
]

unfoldable pub accept_result : World → FetchResult → Memory → Memory × Option CycleError
accept_result world result memory =
    let tagged =
      if is_nil result.etag then memory else record memory { compose_etag = result.etag } in
    if result.not_modified then (tagged, none) else accept_body world result.body tagged

-- The first half of defaultRunOnce.
unfoldable pub refresh_desired : World → Memory → Memory × Option CycleError
refresh_desired world memory = elim world.fetch [
  | none ↦ (memory, none)
  | some fetch ↦ elim (fetch memory.compose_etag) [
    | failure e ↦ (memory, some (runtime (text "compose fetch") (external e)))
    | success result ↦ accept_result world result memory
  ]
]

-- The evaluation at the end of defaultRunOnce, for a runner with a store and a desired state.
unfoldable pub evaluate_step : Settings → World → Memory → Cycle
evaluate_step settings world memory = elim world.store [
  | none ↦ record { memory = memory; effects = []; error = none }
  | some store ↦ elim memory.last_desired_state [
    | none ↦ record { memory = memory; effects = []; error = none }
    | some desired ↦
        let (effects, error) = evaluate_and_persist settings world memory desired store in
        record {
          memory = memory;
          effects = effects;
          error = Option.map (runtime (text "state evaluation")) error;
        }
  ]
]

-- The second half of defaultRunOnce.
unfoldable pub collect_actual : Settings → World → Memory → Cycle
collect_actual settings world memory = elim world.get_actual_state [
  | none ↦ record { memory = memory; effects = []; error = none }
  | some get_actual_state ↦ elim world.canceled_before_swarm [
    | some e ↦ record { memory = memory; effects = []; error = some (external e) }
    | none ↦ elim (get_actual_state settings.stack_name) [
      | failure e ↦ record {
        memory = memory;
        effects = if settings.has_metrics then docker_api_error ∷ [] else [];
        error = some (runtime (text "swarm actual state") (external e));
      }
      | success actual ↦ evaluate_step settings world (record memory { last_actual_state = actual })
    ]
  ]
]

-- defaultRunOnce
unfoldable pub default_run_once : Settings → World → Memory → Cycle
default_run_once settings world memory = elim world.canceled_at_start [
  | some e ↦ record { memory = memory; effects = []; error = some (external e) }
  | none ↦
      let (refreshed, error) = refresh_desired world memory in
      elim error [
        | some e ↦ record { memory = refreshed; effects = []; error = some e }
        | none ↦ collect_actual settings world refreshed
      ]
]

-- What RunOnce records of a cycle with no error, in the tracker and in the metrics.
unfoldable pub cycle_records : Settings → List Effect
cycle_records settings =
    (if settings.has_cycle_tracker
      then cycle_recorded
          (if leb_ℤ settings.stacks_evaluated (pos 0) then pos 1 else settings.stacks_evaluated)
        ∷ []
      else [])
    ++ (if settings.has_metrics then cycle_observed ∷ [] else [])

-- RunOnce
unfoldable pub run_once : Settings → World → Memory → Cycle
run_once settings world memory =
    let cycle = default_run_once settings world memory in
    elim cycle.error [
      | some e ↦ cycle
      | none ↦ record cycle { effects = cycle.effects ++ cycle_records settings }
    ]

-- What wakes the loop: a tick, with the world that its cycle meets, or the end of the context.
pub data Wake : Type 0 where
  tick : World → Wake
  done : Wake

-- The `for` loop of Run: a cycle for each tick until the context is done, whatever the errors. The
-- second part says whether Run has returned.
unfoldable pub run_loop : Settings → List Wake → Memory → List Cycle × Bool
run_loop settings [] memory = ([], false)
run_loop settings (done ∷ wakes) memory = ([], true)
run_loop settings (tick world ∷ wakes) memory =
    let cycle = run_once settings world memory in
    let (cycles, returned) = run_loop settings wakes cycle.memory in (cycle ∷ cycles, returned)

-- Run
unfoldable pub run : Settings → World → List Wake → Memory → Result CycleError (List Cycle × Bool)
unfolding run_loop
run settings world wakes memory =
    if leb_ℤ settings.poll_interval (pos 0)
    then failure bad_interval
    else let first = run_once settings world memory in
      let (cycles, returned) = run_loop settings wakes first.memory in
      success (first ∷ cycles, returned)
