-- ===== src/Tests/Main.antt =====
-- The start of the program for one stack.
use swarm_sentinel.Base.{
  pos, Text, text, text_eq, int_eq, nat_eq, [], ◌∷◌, none, some, true, false, success, failure,
  is_nil, ◌⊎◌, ◌≡◌, refl,
}
use swarm_sentinel.Config.Env.{find_mapping_file}
use swarm_sentinel.Config.Types.{default_poll_interval, default_docker_api_timeout}
use swarm_sentinel.Config.Load.{load_config}
use swarm_sentinel.Tests.Config.{config_program, small_system, small_config}
use swarm_sentinel.Compose.Fetch.{new_http_fetcher}
use swarm_sentinel.Swarm.Retry.{with_retry, retry_from}
use swarm_sentinel.Swarm.Connect.{new_docker_client, normalize_docker_host}
use swarm_sentinel.Notify.Fanout.{
  Channel, new_slack_notifier, new_webhook_notifier, new_multi_notifier, multi_notifier,
  noop_notifier,
}
use swarm_sentinel.Healthcheck.Tracker.{start_servers}
use swarm_sentinel.Runner.Options.{
  Runner, blank_memory, with_compose_fetcher, with_swarm_client, with_stack_name, with_state_store,
  with_notifier, with_alert_stabilization_cycles, with_cycle_tracker, with_metrics,
  apply_runner_options, new_runner,
}
use swarm_sentinel.Main.Start.{
  Machine, runs_one, Started, start_runner, start_mode, start_with, start,
}
use swarm_sentinel.Main.Modes.{Supervises, RunsOne, start-mode}

abbrev silent : Channel
silent = record { rate_limit_error = λ stack. none; post_error = λ payload. none }

abbrev small_machine : Machine
small_machine = record {
  system = small_system;
  decode_mappings = λ bytes. success [];
  load_error = λ tls. none;
  sdk_error = none;
  ping = record { is_done = λ i. false; call = λ i. success tt; is_done_waiting = λ i. false };
  slack_channel = silent;
  webhook_channel = silent;
  marshal = λ message. success [];
  parse_template = λ template. failure (text "no template");
}

abbrev only_runner : Runner
only_runner = record {
  settings = record {
    poll_interval = default_poll_interval;
    stack_name = [];
    alert_stabilization_cycles = pos 2;
    stacks_evaluated = pos 1;
    has_cycle_tracker = true;
    has_metrics = true;
  };
  memory = blank_memory;
  fetcher =
      some (record { max_bytes = pos 5_242_880; max_retries = 3; retry_delay = pos 1_000_000_000 });
  has_swarm_client = true;
  has_state_store = true;
  has_state_lock = true;
  has_notifier = true;
}

abbrev small_started : Started
small_started = record {
  cfg = small_config;
  client = record {
    scheme = text "http";
    host = some (text "tcp://h:1");
    timeout = default_docker_api_timeout;
  };
  servers = start_servers true (pos 65535) (pos 9090);
  notifier = multi_notifier (
      new_multi_notifier
        (some (new_slack_notifier [] silent (λ message. success [])) ∷ some noop_notifier ∷ []));
  mode = runs_one only_runner;
}

start-mode_example :
    (load_config small_system ≡ success small_config)
    × (path : Text) × (find_mapping_file small_system ≡ success path)
    × (((is_nil path ≡ false) × Supervises small_machine small_config (runs_one only_runner))
        ⊎ ((is_nil path ≡ true) × RunsOne small_config (runs_one only_runner)))
unfolding config_program new_http_fetcher with_retry retry_from new_docker_client
    normalize_docker_host new_webhook_notifier start_runner start_mode start_with start
    with_compose_fetcher with_swarm_client with_stack_name with_state_store with_notifier
    with_alert_stabilization_cycles with_cycle_tracker with_metrics apply_runner_options new_runner
start-mode_example = start-mode small_machine small_started refl
