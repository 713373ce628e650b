-- ===== src/Runner/Options.antt =====
-- How a runner is put together: New and the options of internal/runner/runner.go. Of a collaborator
-- it is kept whether there is one.
use swarm_sentinel.Base.{ℤ, pos, Text, List, [], ◌∷◌, Option, none, some, Bool, true, false, ◌||◌}
use swarm_sentinel.Compose.Fetch.{HttpFetcher}
use swarm_sentinel.Runner.Types.{Settings, Memory}

pub record Runner : Type 0 where
  pub settings : Settings
  pub memory : Memory
  pub fetcher : Option HttpFetcher
  pub has_swarm_client : Bool
  pub has_state_store : Bool
  pub has_state_lock : Bool
  pub has_notifier : Bool

abbrev pub RunnerOption : Type 0
RunnerOption = Runner → Runner

unfoldable pub with_compose_fetcher : HttpFetcher → RunnerOption
with_compose_fetcher fetcher r = record r { fetcher = some fetcher }

unfoldable pub with_swarm_client : RunnerOption
with_swarm_client r = record r { has_swarm_client = true }

unfoldable pub with_stack_name : Text → RunnerOption
with_stack_name name r = record r { settings = record r.settings { stack_name = name } }

-- WithStateStore with a store and, perhaps, a lock
unfoldable pub with_state_store : Bool → RunnerOption
with_state_store has_lock r = record r { has_state_store = true; has_state_lock = has_lock }

unfoldable pub with_notifier : RunnerOption
with_notifier r = record r { has_notifier = true }

unfoldable pub with_alert_stabilization_cycles : ℤ → RunnerOption
with_alert_stabilization_cycles cycles r = record r {
  settings = record r.settings { alert_stabilization_cycles = cycles };
}

unfoldable pub with_cycle_tracker : Bool → RunnerOption
with_cycle_tracker has_tracker r = record r {
  settings = record r.settings { has_cycle_tracker = has_tracker };
}

unfoldable pub with_metrics : Bool → RunnerOption
with_metrics has_metrics r = record r { settings = record r.settings { has_metrics = has_metrics } }

unfoldable pub with_stacks_evaluated : ℤ → RunnerOption
with_stacks_evaluated count r = record r {
  settings = record r.settings { stacks_evaluated = count };
}

-- The loop over the options.
unfoldable pub apply_runner_options : List RunnerOption → Runner → Runner
apply_runner_options [] r = r
apply_runner_options (opt ∷ opts) r = apply_runner_options opts (opt r)

-- What a runner knows at its start.
abbrev pub blank_memory : Memory
blank_memory = record {
  compose_etag = [];
  compose_hash = [];
  last_desired_state = none;
  last_actual_state = none;
}

-- New: a store without a lock gets one of its own
unfoldable pub new_runner : ℤ → List RunnerOption → Runner
unfolding apply_runner_options
new_runner poll_interval opts =
    let r = apply_runner_options opts (record {
      settings = record {
        poll_interval = poll_interval;
        stack_name = [];
        alert_stabilization_cycles = pos 1;
        stacks_evaluated = pos 1;
        has_cycle_tracker = false;
        has_metrics = false;
      };
      memory = blank_memory;
      fetcher = none;
      has_swarm_client = false;
      has_state_store = false;
      has_state_lock = false;
      has_notifier = false;
    }) in
    record r { has_state_lock = r.has_state_lock || r.has_state_store }
