-- ===== src/Config/Valid.antt =====
-- What a configuration that Load of internal/config/config.go returns keeps to.
use swarm_sentinel.Base.{
  ℤ, pos, ltb_ℤ, ◌<ℤ◌, ◌≤ℤ◌, Text, text, text_eq, Option-cases, Bool, true, false, not, ◌&&◌, ◌||◌,
  Bool-cases, inl, inr, ◌⊎◌, ◌≡◌, refl, arith, is_nil, success, map_failure, map_failure-eq-success,
  >>-eq-success, >>=-eq-success, require-eq-success, ◌>>=◌, ◌>>◌,
}
use swarm_sentinel.Config.Url.{Parser, validate_url, validate_http_url}
use swarm_sentinel.Config.Allowed.{
  IsUrl, IsHttpUrl, validate_url-IsUrl, validate_http_url-IsHttpUrl,
}
use swarm_sentinel.Config.Env.{
  System, ConfigError, bad_url, not_positive, not_a_port, lookup_bool, duration_setting,
  int_setting, is_port, find_mapping_file,
}
use swarm_sentinel.Config.Types.{
  Config, default_poll_interval, default_compose_timeout, default_docker_api_timeout,
  default_alert_stabilization_cycles, default_health_port, default_metrics_port,
}
use swarm_sentinel.Config.Load.{
  state_path_setting, tls_verify_setting, read_settings, tls_missing, is_https,
  validate_compose_url, validate_optional_url, check_settings, load_config,
}

duration_setting-positive :
    (system : System) (key : Text) (default d : ℤ)
    → ltb_ℤ (pos 0) default ≡ true
    → duration_setting system key default ≡ success d
    → ltb_ℤ (pos 0) d ≡ true
unfolding duration_setting
duration_setting-positive system key default d h k = ground arith

int_setting_test :
    (system : System) (key : Text) (default n : ℤ) (test : ℤ → Bool) (error : Text → ConfigError)
    → test default ≡ true
    → int_setting system key default test error ≡ success n
    → test n ≡ true
unfolding int_setting
int_setting_test system key default n test error h k = ground arith

state_path_setting-not_nil :
    (system : System) (path : Text) → state_path_setting system ≡ success path → is_nil path ≡ false
unfolding state_path_setting
state_path_setting-not_nil system path h = ground arith

-- The settings that stand each by itself.
abbrev pub InRange : Config → Type 0
InRange cfg =
    (pos 0 <ℤ cfg.poll_interval)
    × (pos 0 <ℤ cfg.compose_timeout)
    × (pos 0 <ℤ cfg.docker_api_timeout)
    × (pos 0 <ℤ cfg.alert_stabilization_cycles)
    × ((pos 0 ≤ℤ cfg.health_port) × (cfg.health_port ≤ℤ pos 65535))
    × ((pos 0 ≤ℤ cfg.metrics_port) × (cfg.metrics_port ≤ℤ pos 65535))
    × (is_nil cfg.state_path ≡ false)

read_settings-InRange :
    (system : System) (cfg : Config) → read_settings system ≡ success cfg → InRange cfg
unfolding read_settings
read_settings-InRange system cfg h =
    let (poll, e1, h1) =
      >>=-eq-success (duration_setting system (text "SS_POLL_INTERVAL") default_poll_interval) _
        h in
    let (compose, e2, h2) =
      >>=-eq-success (duration_setting system (text "SS_COMPOSE_TIMEOUT") default_compose_timeout) _
        h1 in
    let (docker, e3, h3) =
      >>=-eq-success
        (duration_setting system (text "SS_DOCKER_API_TIMEOUT") default_docker_api_timeout) _ h2 in
    let (path, e4, h4) = >>=-eq-success (state_path_setting system) _ h3 in
    let (cycles, e5, h5) =
      >>=-eq-success
        (int_setting system (text "SS_ALERT_STABILIZATION_CYCLES")
          default_alert_stabilization_cycles (ltb_ℤ (pos 0)) not_positive)
        _ h4 in
    let (health, e6, h6) =
      >>=-eq-success
        (int_setting system (text "SS_HEALTH_PORT") default_health_port is_port not_a_port) _ h5 in
    let (metrics, e7, h7) =
      >>=-eq-success
        (int_setting system (text "SS_METRICS_PORT") default_metrics_port is_port not_a_port) _
        h6 in
    let (dry, e8, h8) = >>=-eq-success (lookup_bool system (text "SS_DRY_RUN")) _ h7 in
    let (verify, e9, h9) = >>=-eq-success (tls_verify_setting system) _ h8 in
    ground (
      arith,
      duration_setting-positive system (text "SS_POLL_INTERVAL") default_poll_interval poll refl e1,
      duration_setting-positive system (text "SS_COMPOSE_TIMEOUT") default_compose_timeout compose
          refl e2,
      duration_setting-positive system (text "SS_DOCKER_API_TIMEOUT") default_docker_api_timeout
          docker refl e3,
      state_path_setting-not_nil system path e4,
      int_setting_test system (text "SS_ALERT_STABILIZATION_CYCLES")
          default_alert_stabilization_cycles cycles (ltb_ℤ (pos 0)) not_positive refl e5,
      int_setting_test system (text "SS_HEALTH_PORT") default_health_port health is_port not_a_port
          refl e6,
      int_setting_test system (text "SS_METRICS_PORT") default_metrics_port metrics is_port
          not_a_port refl e7,
    )

-- The settings as a whole, with the mapping file that was found.
abbrev pub IsConsistent : System → Config → Text → Type 0
IsConsistent system cfg mapping_path =
    -- one source of stacks and not both
    (is_nil cfg.compose_url ≡ not (is_nil mapping_path))
    × ((is_nil cfg.compose_url ≡ true) ⊎ IsHttpUrl system.parse_url cfg.compose_url)
    × IsUrl system.parse_url cfg.docker_proxy_url
    -- TLS has what it needs, and https has TLS
    × ((cfg.docker_tls_enabled ≡ false)
        ⊎ ((is_nil cfg.docker_tls_cert ≡ false)
            × (is_nil cfg.docker_tls_key ≡ false)
            × ((cfg.docker_tls_verify ≡ false) ⊎ (is_nil cfg.docker_tls_ca ≡ false))))
    × ((is_https system.parse_url cfg.docker_proxy_url ≡ false) ⊎ (cfg.docker_tls_enabled ≡ true))
    × ((is_nil cfg.slack_webhook_url ≡ true) ⊎ IsUrl system.parse_url cfg.slack_webhook_url)
    × ((is_nil cfg.webhook_url ≡ true) ⊎ IsUrl system.parse_url cfg.webhook_url)

validate_optional_url-IsUrl :
    (parse : Parser) (value name : Text)
    → validate_optional_url parse value name ≡ success tt
    → (is_nil value ≡ true) ⊎ IsUrl parse value
unfolding validate_optional_url
validate_optional_url-IsUrl parse value name h = elim (Bool-cases (is_nil value)) [
  | inl none_given ↦ inl none_given
  | inr given ↦ inr (
      validate_url-IsUrl parse value
        (map_failure-eq-success (bad_url name) (validate_url parse value) (ground arith)))
]

validate_compose_url-IsHttpUrl :
    (parse : Parser) (value : Text)
    → validate_compose_url parse value ≡ success tt
    → (is_nil value ≡ true) ⊎ IsHttpUrl parse value
unfolding validate_compose_url
validate_compose_url-IsHttpUrl parse value h = elim (Bool-cases (is_nil value)) [
  | inl none_given ↦ inl none_given
  | inr given ↦ inr (
      validate_http_url-IsHttpUrl parse value (
        map_failure-eq-success (bad_url (text "SS_COMPOSE_URL")) (validate_http_url parse value)
          (ground arith)))
]

tls_missing_complete :
    (cfg : Config)
    → (not cfg.docker_tls_enabled || is_nil (tls_missing cfg)) ≡ true
    → (cfg.docker_tls_enabled ≡ false)
      ⊎ ((is_nil cfg.docker_tls_cert ≡ false)
          × (is_nil cfg.docker_tls_key ≡ false)
          × ((cfg.docker_tls_verify ≡ false) ⊎ (is_nil cfg.docker_tls_ca ≡ false)))
unfolding tls_missing
tls_missing_complete cfg h = ground arith

check_settings-IsConsistent :
    (system : System) (cfg : Config) (path : Text)
    → check_settings system cfg path ≡ success tt
    → IsConsistent system cfg path
unfolding check_settings
check_settings-IsConsistent system cfg path h =
    let parse = system.parse_url in
    let docker = validate_url parse cfg.docker_proxy_url in
    let (one, h1) = require-eq-success (is_nil path || is_nil cfg.compose_url) _ _ h in
    let (any, h2) = require-eq-success (not (is_nil path && is_nil cfg.compose_url)) _ _ h1 in
    let (compose, h3) = >>-eq-success (validate_compose_url parse cfg.compose_url) _ h2 in
    let (proxy, h4) =
      >>-eq-success (map_failure (bad_url (text "SS_DOCKER_PROXY_URL")) docker) _ h3 in
    let (complete, h5) =
      require-eq-success (not cfg.docker_tls_enabled || is_nil (tls_missing cfg)) _ _ h4 in
    let (secured, h6) =
      require-eq-success (not (is_https parse cfg.docker_proxy_url) || cfg.docker_tls_enabled) _ _
        h5 in
    let (slack, webhook) =
      >>-eq-success
        (validate_optional_url parse cfg.slack_webhook_url (text "SS_SLACK_WEBHOOK_URL")) _ h6 in
    (
      ground (arith, one, any),
      validate_compose_url-IsHttpUrl parse cfg.compose_url compose,
      validate_url-IsUrl parse cfg.docker_proxy_url
          (map_failure-eq-success (bad_url (text "SS_DOCKER_PROXY_URL")) docker proxy),
      tls_missing_complete cfg complete,
      ground (arith, secured),
      validate_optional_url-IsUrl parse cfg.slack_webhook_url (text "SS_SLACK_WEBHOOK_URL") slack,
      validate_optional_url-IsUrl parse cfg.webhook_url (text "SS_WEBHOOK_URL") webhook,
    )

-- A configuration that Load returns keeps to its ranges: durations and stabilization cycles greater
-- than zero, ports from 0 to 65535, a state path that is not empty. A mapping file has been looked for
-- without error, and there is a compose URL exactly if none was found. The compose URL may be fetched,
-- the URLs of Docker and the webhooks have a scheme and a host, TLS has its certificate, its key and,
-- to verify, its CA, and an https Docker host has TLS.
pub load_config-IsValid :
    (system : System) (cfg : Config)
    → load_config system ≡ success cfg
    → (path : Text) × (find_mapping_file system ≡ success path)
      × InRange cfg
      × IsConsistent system cfg path
unfolding load_config
load_config-IsValid system cfg h = elim (Option-cases system.dotenv_error) [
  | inr (e, failed) ↦ absurd (ground arith)
  | inl loaded ↦
      let h0 : (read_settings system >>= λ c.
      find_mapping_file system >>= λ path. check_settings system c path >> success c)
          ≡ success cfg =
        ground arith in
      let (read, e1, h1) = >>=-eq-success (read_settings system) _ h0 in
      let (path, found, h2) = >>=-eq-success (find_mapping_file system) _ h1 in
      let (checked, same) = >>-eq-success (check_settings system read path) (success read) h2 in
      let e : read ≡ cfg = ground (arith, same) in
      (
        path,
        found,
        read_settings-InRange system cfg (ground arith),
        check_settings-IsConsistent system cfg path (ground arith),
      )
]
