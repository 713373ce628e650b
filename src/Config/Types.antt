-- ===== src/Config/Types.antt =====
-- Config of internal/config/config.go, and its defaults.
use swarm_sentinel.Base.{ℤ, pos, Text, text, Bool}

pub record Config : Type 0 where
  pub poll_interval : ℤ
  pub compose_timeout : ℤ
  pub docker_api_timeout : ℤ
  pub compose_url : Text
  pub slack_webhook_url : Text
  pub webhook_url : Text
  pub webhook_template : Text
  pub docker_proxy_url : Text
  pub stack_name : Text
  pub docker_tls_enabled : Bool
  pub docker_tls_verify : Bool
  pub docker_tls_ca : Text
  pub docker_tls_cert : Text
  pub docker_tls_key : Text
  pub log_level : Text
  pub state_path : Text
  pub alert_stabilization_cycles : ℤ
  pub health_port : ℤ
  pub metrics_port : ℤ
  pub dry_run : Bool

abbrev pub default_poll_interval : ℤ
default_poll_interval = pos 30_000_000_000

abbrev pub default_compose_timeout : ℤ
default_compose_timeout = pos 10_000_000_000

abbrev pub default_docker_api_timeout : ℤ
default_docker_api_timeout = pos 30_000_000_000

abbrev pub default_docker_proxy_url : Text
default_docker_proxy_url = text "http://localhost:2375"

abbrev pub default_state_path : Text
default_state_path = text "/var/lib/swarm-sentinel/state.json"

abbrev pub default_alert_stabilization_cycles : ℤ
default_alert_stabilization_cycles = pos 2

abbrev pub default_health_port : ℤ
default_health_port = pos 8080

abbrev pub default_metrics_port : ℤ
default_metrics_port = pos 9090
