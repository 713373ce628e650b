-- ===== src/Main/Start.antt =====
-- The start of the program: main of cmd/swarm-sentinel/main.go, up to the loop that it enters.
use swarm_sentinel.Base.{
  pos, int_eq, Text, text, text_eq, List, [], ◌∷◌, Option, some, true, not, is_nil, Result, success,
  require, map_failure, ◌>>=◌, ◌>>◌, ◌==◌, if◌then◌else◌,
}
use swarm_sentinel.Config.Env.{System, ConfigError, find_mapping_file}
use swarm_sentinel.Config.Types.{Config}
use swarm_sentinel.Config.Load.{load_config}
use swarm_sentinel.Config.Mapping.{StackMapping, MappingError, load_mapping_file}
use swarm_sentinel.Compose.Fetch.{new_http_fetcher}
use swarm_sentinel.Swarm.Retry.{RetryError, Attempts, with_retry}
use swarm_sentinel.Swarm.Connect.{TlsConfig, DockerClient, new_docker_client}
use swarm_sentinel.Transition.Types.{ServiceTransition}
use swarm_sentinel.Notify.Slack.{WebhookMessage}
use swarm_sentinel.Notify.Fanout.{
  Channel, Notifier, dry_run_notifier, new_slack_notifier, new_webhook_notifier, new_multi_notifier,
  multi_notifier, as_notifier,
}
use swarm_sentinel.Healthcheck.Tracker.{Server, start_servers}
use swarm_sentinel.Runner.Options.{
  Runner, with_compose_fetcher, with_swarm_client, with_stack_name, with_state_store, with_notifier,
  with_alert_stabilization_cycles, with_cycle_tracker, with_metrics, new_runner,
}
use swarm_sentinel.Coordinator.Spawn.{
  Coordinator, share_state_store, share_notifier, apply_stabilization, share_cycle_tracker,
  share_metrics, new_coordinator,
}

-- What the start meets: the system, the decoder of the mapping file, the errors of the certificates
-- and of the Docker SDK, the answers to Ping, the posts of the notifiers, json.Marshal and the parser
-- of templates. Files do not change during the start.
pub record Machine : Type 0 where
  pub system : System
  pub decode_mappings : Text → Result Text (List StackMapping)
  pub load_error : TlsConfig → Option Text
  pub sdk_error : Option Text
  pub ping : Attempts (Unit {0})
  pub slack_channel : Channel
  pub webhook_channel : Channel
  pub marshal : WebhookMessage → Result Text Text
  pub parse_template : Text → Result Text (Text → List ServiceTransition → Result Text Text)

-- The calls of logger.Fatal.
pub data Fatal : Type 0 where
  config_failed : ConfigError → Fatal
  docker_failed : Text → Fatal
  docker_unreachable : RetryError → Fatal
  webhook_failed : Text → Fatal
  no_mapping_file : ConfigError → Fatal
  mapping_failed : MappingError → Fatal
  compose_url_required : Fatal
  fetcher_failed : Text → Fatal

-- What the program then runs.
pub data Mode : Type 0 where
  coordinates : Coordinator → Mode
  runs_one : Runner → Mode

pub record Started : Type 0 where
  pub cfg : Config
  pub client : DockerClient
  pub servers : List Server
  pub notifier : Notifier
  pub mode : Mode

-- The branch of a mapping file.
unfoldable pub start_coordinator : Machine → Config → Text → Result Fatal Mode
unfolding load_mapping_file new_coordinator share_state_store share_notifier apply_stabilization
    share_cycle_tracker share_metrics
start_coordinator machine cfg path =
    map_failure mapping_failed (
      load_mapping_file machine.system.parse_url machine.system.read_file machine.decode_mappings
        path)
    >>= λ mappings. success (
        coordinates (
          new_coordinator cfg mappings (
            share_state_store true
            ∷ share_notifier
            ∷ apply_stabilization cfg.alert_stabilization_cycles
            ∷ share_cycle_tracker (not (cfg.health_port == pos 0))
            ∷ share_metrics (not (cfg.metrics_port == pos 0))
            ∷ [])))

-- The branch without one.
unfoldable pub start_runner : Config → Result Fatal Mode
unfolding new_http_fetcher new_runner with_compose_fetcher with_swarm_client with_stack_name
    with_state_store with_notifier with_alert_stabilization_cycles with_cycle_tracker with_metrics
start_runner cfg =
    require (not (is_nil cfg.compose_url)) compose_url_required
    >> map_failure fetcher_failed (new_http_fetcher cfg.compose_url cfg.compose_timeout (pos 0) [])
    >>= λ fetcher. success (
        runs_one (
          new_runner cfg.poll_interval (
            with_compose_fetcher fetcher
            ∷ with_swarm_client
            ∷ with_stack_name cfg.stack_name
            ∷ with_state_store true
            ∷ with_notifier
            ∷ with_alert_stabilization_cycles cfg.alert_stabilization_cycles
            ∷ with_cycle_tracker (not (cfg.health_port == pos 0))
            ∷ with_metrics (not (cfg.metrics_port == pos 0))
            ∷ [])))

unfoldable pub start_mode : Machine → Config → Text → Result Fatal Mode
unfolding start_coordinator start_runner
start_mode machine cfg path =
    if is_nil path then start_runner cfg else start_coordinator machine cfg path

-- The TLS settings that the Docker client is given.
abbrev pub tls_of : Config → TlsConfig
tls_of cfg = record {
  enabled = cfg.docker_tls_enabled;
  verify = cfg.docker_tls_verify;
  ca_file = cfg.docker_tls_ca;
  cert_file = cfg.docker_tls_cert;
  key_file = cfg.docker_tls_key;
}

-- main after the configuration has been loaded
unfoldable pub start_with : Machine → Config → Result Fatal Started
unfolding new_docker_client with_retry start_servers new_slack_notifier new_webhook_notifier
    new_multi_notifier multi_notifier dry_run_notifier find_mapping_file start_mode
start_with machine cfg = do
  client ← map_failure docker_failed (
      new_docker_client machine.system.parse_url machine.load_error machine.sdk_error
        cfg.docker_proxy_url cfg.docker_api_timeout (tls_of cfg))
  pong ← map_failure docker_unreachable (with_retry machine.ping []).result
  webhook ← map_failure webhook_failed (
      new_webhook_notifier cfg.webhook_url cfg.webhook_template machine.webhook_channel
        machine.parse_template)
  path ← map_failure no_mapping_file (find_mapping_file machine.system)
  mode ← start_mode machine cfg path
  let slack = new_slack_notifier cfg.slack_webhook_url machine.slack_channel machine.marshal
  let all = multi_notifier (new_multi_notifier (some slack ∷ some (as_notifier webhook) ∷ []))
  success (record {
    cfg = cfg;
    client = client;
    servers = start_servers (not (cfg.metrics_port == pos 0)) cfg.health_port cfg.metrics_port;
    notifier = if cfg.dry_run then dry_run_notifier all else all;
    mode = mode;
  })

-- main, without its flags
unfoldable pub start : Machine → Result Fatal Started
unfolding load_config start_with
start machine =
    map_failure config_failed (load_config machine.system) >>= λ cfg. start_with machine cfg

-- secretStatus
unfoldable pub secret_status : Text → Text
secret_status value = if is_nil value then text "unset" else text "set"
