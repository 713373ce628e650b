-- ===== src/Coordinator/Spawn.antt =====
-- How the coordinator sets up the runners of the stacks: New, Run and spawnRunner of
-- internal/coordinator/coordinator.go.
use swarm_sentinel.Base.{
  length, ℤ, pos, ltb, ltb_ℤ, Text, text_eq, List, [], ◌∷◌, ◌++◌, Bool, true, false, Result,
  success, failure, if◌then◌else◌,
}
use swarm_sentinel.Base.Dict.{Dict, insert}
use swarm_sentinel.Config.Mapping.{StackMapping}
use swarm_sentinel.Config.Types.{Config}
use swarm_sentinel.Compose.Fetch.{HttpFetcher, new_http_fetcher}
use swarm_sentinel.Runner.Options.{
  Runner, RunnerOption, with_compose_fetcher, with_swarm_client, with_stack_name, with_state_store,
  with_notifier, with_alert_stabilization_cycles, with_cycle_tracker, with_metrics,
  with_stacks_evaluated, new_runner,
}

-- The coordinator: the configuration, the stacks, and which collaborators it has.
pub record Coordinator : Type 0 where
  pub cfg : Config
  pub mappings : List StackMapping
  pub has_state_store : Bool
  pub has_state_lock : Bool
  pub has_notifier : Bool
  pub has_cycle_tracker : Bool
  pub has_metrics : Bool
  pub alert_stabilization_cycles : ℤ

abbrev pub CoordinatorOption : Type 0
CoordinatorOption = Coordinator → Coordinator

-- The options, each of which sets its collaborator.
unfoldable pub share_state_store : Bool → CoordinatorOption
share_state_store has_lock c = record c { has_state_store = true; has_state_lock = has_lock }

unfoldable pub share_notifier : CoordinatorOption
share_notifier c = record c { has_notifier = true }

unfoldable pub share_cycle_tracker : Bool → CoordinatorOption
share_cycle_tracker has_tracker c = record c { has_cycle_tracker = has_tracker }

unfoldable pub share_metrics : Bool → CoordinatorOption
share_metrics has_metrics c = record c { has_metrics = has_metrics }

unfoldable pub apply_stabilization : ℤ → CoordinatorOption
apply_stabilization cycles c = record c { alert_stabilization_cycles = cycles }

-- The loop over the options.
unfoldable pub apply_coordinator_options : List CoordinatorOption → Coordinator → Coordinator
apply_coordinator_options [] c = c
apply_coordinator_options (opt ∷ opts) c = apply_coordinator_options opts (opt c)

-- New
unfoldable pub new_coordinator : Config → List StackMapping → List CoordinatorOption → Coordinator
unfolding apply_coordinator_options
new_coordinator cfg mappings opts = apply_coordinator_options opts (record {
  cfg = cfg;
  mappings = mappings;
  has_state_store = false;
  has_state_lock = false;
  has_notifier = false;
  has_cycle_tracker = false;
  has_metrics = false;
  alert_stabilization_cycles = pos 0;
})

-- The timeout of a stack's fetches: its own, or the one of the configuration.
unfoldable pub stack_timeout : Config → StackMapping → ℤ
stack_timeout cfg mapping =
    if ltb_ℤ (pos 0) mapping.timeout then mapping.timeout else cfg.compose_timeout

-- `if test { opts = append(opts, opt) }`
abbrev when_set : Bool → RunnerOption → List RunnerOption
when_set test opt = if test then opt ∷ [] else []

-- The options of the runner of a stack.
unfoldable pub runner_options : Coordinator → StackMapping → HttpFetcher → List RunnerOption
runner_options c mapping fetcher =
    (with_compose_fetcher fetcher ∷ with_swarm_client ∷ with_stack_name mapping.name ∷ [])
    ++ (when_set c.has_state_store (with_state_store c.has_state_lock)
        ++ (when_set c.has_notifier with_notifier
            ++ (when_set c.has_cycle_tracker (with_cycle_tracker true)
                ++ (when_set c.has_metrics (with_metrics true)
                    ++ (when_set (ltb_ℤ (pos 0) c.alert_stabilization_cycles)
                          (with_alert_stabilization_cycles c.alert_stabilization_cycles)
                        ++ when_set (ltb 0 (length c.mappings))
                            (with_stacks_evaluated (pos (length c.mappings))))))))

-- spawnRunner up to the start of the loop: the runner, or the error of the fetcher
unfoldable pub spawn_runner : Coordinator → StackMapping → Result Text Runner
unfolding new_http_fetcher stack_timeout runner_options new_runner
spawn_runner c mapping =
    elim (new_http_fetcher mapping.compose_url (stack_timeout c.cfg mapping) (pos 0) []) [
      | failure e ↦ failure e
      | success fetcher ↦
          success (new_runner c.cfg.poll_interval (runner_options c mapping fetcher))
    ]

-- The coordinator's maps once all the stacks have been spawned.
pub record Spawned : Type 0 where
  pub runners : Dict Text Runner
  pub runner_errors : Dict Text Text

-- The loop of Run over the mappings; recordError for a stack whose runner cannot be made.
unfoldable pub spawn_all : Coordinator → List StackMapping → Spawned → Spawned
unfolding insert spawn_runner
spawn_all c [] spawned = spawned
spawn_all c (mapping ∷ mappings) spawned = spawn_all c mappings (elim (spawn_runner c mapping) [
  | failure e ↦ record spawned { runner_errors = insert mapping.name e spawned.runner_errors }
  | success r ↦ record spawned { runners = insert mapping.name r spawned.runners }
])

unfoldable pub spawn : Coordinator → Spawned
unfolding spawn_all
spawn c = spawn_all c c.mappings (record { runners = []; runner_errors = [] })
