-- ===== src/Config/Load.antt =====
-- Load of internal/config/config.go.
use swarm_sentinel.Base.{
  pos, ltb_ℤ, Text, text, text_eq, List, [], ◌∷◌, ◌++◌, none, some, Bool, false, not, ◌&&◌, ◌||◌,
  is_nil, Result, success, failure, require, map_failure, ◌>>=◌, ◌>>◌, ◌==◌, if◌then◌else◌,
}
use swarm_sentinel.Config.Url.{Parser, validate_url, validate_http_url}
use swarm_sentinel.Config.Env.{
  System, ConfigError, dotenv_failed, not_positive, not_a_port, empty_setting, both_sources,
  no_source, bad_url, tls_incomplete, https_without_tls, lookup_trimmed, text_setting, lookup_bool,
  duration_setting, int_setting, is_port, load_secret_from_file, find_mapping_file,
}
use swarm_sentinel.Config.Types.{
  Config, default_poll_interval, default_compose_timeout, default_docker_api_timeout,
  default_docker_proxy_url, default_state_path, default_alert_stabilization_cycles,
  default_health_port, default_metrics_port,
}

-- The flag of TLS verification, with the name that the Docker CLI uses as a fallback.
unfoldable pub tls_verify_setting : System → Result ConfigError Bool
unfolding lookup_bool
tls_verify_setting system = lookup_bool system (text "SS_DOCKER_TLS_VERIFY") >>= λ own. elim own [
  | some b ↦ success b
  | none ↦ lookup_bool system (text "DOCKER_TLS_VERIFY") >>= λ other.
      success (elim other [ some b ↦ b | none ↦ false ])
]

-- The path of a TLS file: its own setting, or the file of the directory that the Docker CLI uses.
unfoldable pub tls_path : System → Text → Text → Text
unfolding text_setting lookup_trimmed
tls_path system key file =
    let own = text_setting system key [] in
    elim (lookup_trimmed system (text "DOCKER_CERT_PATH")) [
      | none ↦ own
      | some dir ↦ if is_nil own then system.join_path dir file else own
    ]

-- The path of the state, which must not be empty.
unfoldable pub state_path_setting : System → Result ConfigError Text
unfolding lookup_trimmed
state_path_setting system = elim (lookup_trimmed system (text "SS_STATE_PATH")) [
  | none ↦ success default_state_path
  | some value ↦
      require (not (is_nil value)) (empty_setting (text "SS_STATE_PATH")) >> success value
]

-- The first half of Load: the settings, each by itself.
unfoldable pub read_settings : System → Result ConfigError Config
unfolding duration_setting text_setting load_secret_from_file state_path_setting int_setting
    lookup_bool tls_verify_setting tls_path
read_settings system = do
  poll_interval ← duration_setting system (text "SS_POLL_INTERVAL") default_poll_interval
  compose_timeout ← duration_setting system (text "SS_COMPOSE_TIMEOUT") default_compose_timeout
  docker_api_timeout ←
      duration_setting system (text "SS_DOCKER_API_TIMEOUT") default_docker_api_timeout
  state_path ← state_path_setting system
  cycles ←
      int_setting system (text "SS_ALERT_STABILIZATION_CYCLES") default_alert_stabilization_cycles
        (ltb_ℤ (pos 0)) not_positive
  health_port ← int_setting system (text "SS_HEALTH_PORT") default_health_port is_port not_a_port
  metrics_port ← int_setting system (text "SS_METRICS_PORT") default_metrics_port is_port not_a_port
  dry_run ← lookup_bool system (text "SS_DRY_RUN")
  verify ← tls_verify_setting system
  let ca = tls_path system (text "SS_DOCKER_TLS_CA") (text "ca.pem")
  let cert = tls_path system (text "SS_DOCKER_TLS_CERT") (text "cert.pem")
  let key = tls_path system (text "SS_DOCKER_TLS_KEY") (text "key.pem")
  success (record {
    poll_interval = poll_interval;
    compose_timeout = compose_timeout;
    docker_api_timeout = docker_api_timeout;
    compose_url = text_setting system (text "SS_COMPOSE_URL") [];
    slack_webhook_url = load_secret_from_file system (text "SS_SLACK_WEBHOOK_URL");
    webhook_url = load_secret_from_file system (text "SS_WEBHOOK_URL");
    webhook_template = text_setting system (text "SS_WEBHOOK_TEMPLATE") [];
    docker_proxy_url = text_setting system (text "SS_DOCKER_PROXY_URL") default_docker_proxy_url;
    stack_name = text_setting system (text "SS_STACK_NAME") [];
    docker_tls_enabled = verify || not (is_nil ca) || not (is_nil cert) || not (is_nil key);
    docker_tls_verify = verify;
    docker_tls_ca = ca;
    docker_tls_cert = cert;
    docker_tls_key = key;
    log_level = text_setting system (text "SS_LOG_LEVEL") (text "info");
    state_path = state_path;
    alert_stabilization_cycles = cycles;
    health_port = health_port;
    metrics_port = metrics_port;
    dry_run = elim dry_run [ some b ↦ b | none ↦ false ];
  })

-- The settings that TLS lacks.
unfoldable pub tls_missing : Config → List Text
tls_missing cfg =
    (if is_nil cfg.docker_tls_cert then text "SS_DOCKER_TLS_CERT" ∷ [] else [])
    ++ ((if is_nil cfg.docker_tls_key then text "SS_DOCKER_TLS_KEY" ∷ [] else [])
        ++ (if cfg.docker_tls_verify && is_nil cfg.docker_tls_ca
            then text "SS_DOCKER_TLS_CA" ∷ []
            else []))

-- The scheme of the Docker URL is https.
unfoldable pub is_https : Parser → Text → Bool
is_https parse value = elim (parse value) [
  | failure e ↦ false
  | success u ↦ u.scheme == text "https"
]

-- A URL that may be left out.
unfoldable pub validate_optional_url : Parser → Text → Text → Result ConfigError (Unit {0})
unfolding validate_url
validate_optional_url parse value name =
    if is_nil value then success tt else map_failure (bad_url name) (validate_url parse value)

unfoldable pub validate_compose_url : Parser → Text → Result ConfigError (Unit {0})
unfolding validate_http_url
validate_compose_url parse value =
    if is_nil value
    then success tt
    else map_failure (bad_url (text "SS_COMPOSE_URL")) (validate_http_url parse value)

-- The second half of Load: what the settings must be together.
unfoldable pub check_settings : System → Config → Text → Result ConfigError (Unit {0})
unfolding validate_compose_url validate_url validate_optional_url tls_missing is_https
check_settings system cfg mapping_path = do
  require (is_nil mapping_path || is_nil cfg.compose_url) (both_sources mapping_path)
  require (not (is_nil mapping_path && is_nil cfg.compose_url)) no_source
  validate_compose_url system.parse_url cfg.compose_url
  map_failure (bad_url (text "SS_DOCKER_PROXY_URL"))
      (validate_url system.parse_url cfg.docker_proxy_url)
  require (not cfg.docker_tls_enabled || is_nil (tls_missing cfg))
      (tls_incomplete (tls_missing cfg))
  require (not (is_https system.parse_url cfg.docker_proxy_url) || cfg.docker_tls_enabled)
      https_without_tls
  validate_optional_url system.parse_url cfg.slack_webhook_url (text "SS_SLACK_WEBHOOK_URL")
  validate_optional_url system.parse_url cfg.webhook_url (text "SS_WEBHOOK_URL")

-- Load
unfoldable pub load_config : System → Result ConfigError Config
unfolding read_settings find_mapping_file check_settings
load_config system = elim system.dotenv_error [
  | some e ↦ failure (dotenv_failed e)
  | none ↦ read_settings system >>= λ cfg. find_mapping_file system >>= λ mapping_path.
      check_settings system cfg mapping_path >> success cfg
]
