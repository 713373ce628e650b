-- ===== src/Runner/Phases.antt =====
-- The cycle of internal/runner/runner.go, cut at the calls that meet the store: what comes before the
-- lock of evaluateAndPersist, what is done with the state that Load gives, and the ends of the cycle.
use mathlib.Core.Option
use swarm_sentinel.Base.{
  Text, text, text_eq, List, [], ◌∷◌, ◌++◌, Option, none, some, Option-cases, Bool, not, is_nil,
  success, failure, Result-cases, ◌≡◌, arith, inl, inr, true, false, if◌then◌else◌,
}
use swarm_sentinel.Base.Dict.{lookup}
use swarm_sentinel.Compose.Types.{DesiredState}
use swarm_sentinel.Health.Types.{StackHealth}
use swarm_sentinel.Health.Evaluate.{evaluate_stack_health}
use swarm_sentinel.State.Types.{State}
use swarm_sentinel.Transition.Types.{ServiceTransition}
use swarm_sentinel.Runner.Types.{
  CycleError, external, runtime, Settings, Memory, Store, World, saved, docker_api_error, Cycle,
}
use swarm_sentinel.Runner.Stabilize.{stabilize_transitions}
use swarm_sentinel.Runner.Cycle.{
  stack_key, record_metrics, notify_transitions, with_snapshot, evaluate_and_persist, evaluate_step,
  collect_actual, refresh_desired, default_run_once, cycle_records, run_once,
}

-- What the part before the lock comes to: the end of the cycle, or evaluateAndPersist with this memory
-- and desired state.
pub data Prepared : Type 0 where
  ended : Cycle → Prepared
  evaluates : Memory → DesiredState → Prepared

-- A cycle that ends here, with what RunOnce records of it.
unfoldable pub with_records : Settings → Cycle → Cycle
unfolding cycle_records
with_records settings cycle = elim cycle.error [
  | some e ↦ cycle
  | none ↦ record cycle { effects = cycle.effects ++ cycle_records settings }
]

abbrev pub without_effects : Memory → Option CycleError → Cycle
without_effects memory error = record { memory = memory; effects = []; error = error }

-- The end of defaultRunOnce, for a runner with or without a store.
unfoldable pub prepare_step : Bool → Memory → Prepared
prepare_step has_store memory = elim memory.last_desired_state [
  | none ↦ ended (without_effects memory none)
  | some desired ↦
      if has_store then evaluates memory desired else ended (without_effects memory none)
]

unfoldable pub prepare_actual : Bool → Settings → World → Memory → Prepared
unfolding prepare_step
prepare_actual has_store settings world memory = elim world.get_actual_state [
  | none ↦ ended (without_effects memory none)
  | some get_actual_state ↦ elim world.canceled_before_swarm [
    | some e ↦ ended (without_effects memory (some (external e)))
    | none ↦ elim (get_actual_state settings.stack_name) [
      | failure e ↦ ended (record {
        memory = memory;
        effects = if settings.has_metrics then docker_api_error ∷ [] else [];
        error = some (runtime (text "swarm actual state") (external e));
      })
      | success actual ↦ prepare_step has_store (record memory { last_actual_state = actual })
    ]
  ]
]

-- defaultRunOnce up to the call of evaluateAndPersist
unfoldable pub prepare : Bool → Settings → World → Memory → Prepared
unfolding refresh_desired prepare_actual
prepare has_store settings world memory = elim world.canceled_at_start [
  | some e ↦ ended (without_effects memory (some (external e)))
  | none ↦
      let (refreshed, error) = refresh_desired world memory in
      elim error [
        | some e ↦ ended (without_effects refreshed (some e))
        | none ↦ prepare_actual has_store settings world refreshed
      ]
]

-- The health, the services and the transitions from a loaded state.
unfoldable pub health_of : Settings → Memory → DesiredState → StackHealth
health_of settings memory desired =
    evaluate_stack_health desired memory.last_actual_state (not (is_nil settings.stack_name))

-- What is to be saved, and the transitions, from a loaded state.
unfoldable pub evaluate_loaded :
    Settings → World → Memory → DesiredState → State → State × List ServiceTransition
unfolding health_of
evaluate_loaded settings world memory desired loaded =
    let key = stack_key settings.stack_name in
    let (services, transitions) =
      stabilize_transitions settings.alert_stabilization_cycles (lookup key loaded.stacks)
        (health_of settings memory desired) in
    (with_snapshot key memory.compose_hash world.now services loaded, transitions)

-- The end of a cycle whose Load or Save has failed, and of one that has saved.
unfoldable pub failed_cycle : Text → Memory → Text → Cycle
failed_cycle call memory e =
    without_effects memory (some (runtime (text "state evaluation") (runtime call (external e))))

unfoldable pub saved_cycle : Settings → World → Memory → DesiredState → State → Cycle
unfolding evaluate_loaded with_records
saved_cycle settings world memory desired loaded =
    let key = stack_key settings.stack_name in
    let (next, transitions) = evaluate_loaded settings world memory desired loaded in
    with_records settings (record {
      memory = memory;
      effects =
          saved next
          ∷ (record_metrics settings.has_metrics key (health_of settings memory desired) transitions
              ++ notify_transitions world.notify key transitions);
      error = none;
    })

-- evaluateAndPersist over a store, to the end of the cycle.
unfoldable pub finish : Settings → World → Store → Memory → DesiredState → Cycle
unfolding failed_cycle saved_cycle evaluate_loaded
finish settings world store memory desired = elim store.load [
  | failure e ↦ failed_cycle (text "state load") memory e
  | success loaded ↦ elim (store.save (evaluate_loaded settings world memory desired loaded).0) [
    | some e ↦ failed_cycle (text "state save") memory e
    | none ↦ saved_cycle settings world memory desired loaded
  ]
]

abbrev pub has_some {ℓ} : {A : Type ℓ} → Option A → Bool
has_some none = false
has_some (some a) = true

unfoldable pub outcome : Settings → World → Prepared → Cycle
unfolding with_records finish
outcome settings world (ended cycle) = with_records settings cycle
outcome settings world (evaluates memory desired) = elim world.store [
  | none ↦ with_records settings (without_effects memory none)
  | some store ↦ finish settings world store memory desired
]

module _ (settings : Settings) (world : World) where
  finish_lem :
      (memory : Memory) (desired : DesiredState) (store : Store)
      → let persisted = evaluate_and_persist settings world memory desired store in
        with_records settings (record {
          memory = memory;
          effects = persisted.0;
          error = Option.map (runtime (text "state evaluation")) persisted.1;
        })
        ≡ finish settings world store memory desired
  unfolding evaluate_and_persist finish with_records
  finish_lem memory desired store = elim (Result-cases store.load) [
    | inr (e, failed) ↦ ground arith
    | inl (loaded, found) ↦
        elim (Option-cases (store.save (evaluate_loaded settings world memory desired loaded).0)) [
          | inl stored ↦ ground arith
          | inr (e, failed) ↦ ground arith
        ]
  ]

  evaluate_step-outcome :
      (memory : Memory)
      → with_records settings (evaluate_step settings world memory)
        ≡ outcome settings world (prepare_step (has_some world.store) memory)
  unfolding evaluate_step prepare_step outcome
  evaluate_step-outcome memory = elim (Option-cases world.store) [
    | inl without ↦ ground arith
    | inr (store, with) ↦ elim (Option-cases memory.last_desired_state) [
      | inl none_known ↦ ground arith
      | inr (desired, known) ↦ ground (arith, finish_lem memory desired store)
    ]
  ]

  collect_actual-outcome :
      (memory : Memory)
      → with_records settings (collect_actual settings world memory)
        ≡ outcome settings world (prepare_actual (has_some world.store) settings world memory)
  unfolding collect_actual prepare_actual outcome
  collect_actual-outcome memory = grind (arith, evaluate_step-outcome)

  -- A cycle is its part before the lock, followed by what that comes to.
  pub run_once-outcome :
      (memory : Memory)
      → run_once settings world memory
        ≡ outcome settings world (prepare (has_some world.store) settings world memory)
  unfolding run_once default_run_once prepare outcome
  run_once-outcome memory = ground (arith, collect_actual-outcome (refresh_desired world memory).0)
