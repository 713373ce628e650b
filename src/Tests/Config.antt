-- ===== src/Tests/Config.antt =====
-- A concrete environment, its configuration, and a list of stacks.
use swarm_sentinel.Base.{
  pos, int_eq, Text, text, text_eq, nat_eq, trim_space, has_prefix, to_lower, List, [], ◌∷◌, none,
  some, false, All, ◌↔◌, ◌≡◌, refl, is_nil, success, failure, ◌==◌, if◌then◌else◌,
}
use swarm_sentinel.Base.Numeral.{atoi, digits_value}
use swarm_sentinel.Config.Url.{
  Parser, parsed_url, validate_url, validate_http_url, validate_not_metadata_endpoint,
}
use swarm_sentinel.Config.Mapping.{StackMapping, validate_mappings, validate_from, validate_mapping}
use swarm_sentinel.Config.Stacks.{IsStack, HasDistinctNames, validate_mappings_lem}
use swarm_sentinel.Config.Env.{
  System, parse_bool, lookup_trimmed, text_setting, lookup_bool, duration_setting, int_setting,
  load_secret_from_file, find_mapping_file,
}
use swarm_sentinel.Config.Types.{
  Config, default_poll_interval, default_compose_timeout, default_docker_api_timeout,
  default_docker_proxy_url, default_state_path,
}
use swarm_sentinel.Config.Load.{
  tls_verify_setting, tls_path, state_path_setting, read_settings, tls_missing, is_https,
  validate_optional_url, validate_compose_url, check_settings, load_config,
}
use swarm_sentinel.Config.Valid.{InRange, IsConsistent, load_config-IsValid}

abbrev parse_any : Parser
parse_any value = success (record { scheme = text "http"; host = text "h:1"; hostname = text "h" })

abbrev pub small_system : System
small_system = record {
  dotenv_error = none;
  env = λ key.
      if key == text "SS_COMPOSE_URL"
      then some (text " http://h:1/c.yml ")
      else if key == text "SS_HEALTH_PORT"
      then some (text "65535")
      else none;
  read_file = λ path. failure (text "no such file");
  is_file = λ path. false;
  parse_duration = λ value. failure (text "no duration");
  parse_url = parse_any;
  join_path = λ dir file. file;
}

abbrev pub small_config : Config
small_config = record {
  poll_interval = default_poll_interval;
  compose_timeout = default_compose_timeout;
  docker_api_timeout = default_docker_api_timeout;
  compose_url = text "http://h:1/c.yml";
  slack_webhook_url = [];
  webhook_url = [];
  webhook_template = [];
  docker_proxy_url = default_docker_proxy_url;
  stack_name = [];
  docker_tls_enabled = false;
  docker_tls_verify = false;
  docker_tls_ca = [];
  docker_tls_cert = [];
  docker_tls_key = [];
  log_level = text "info";
  state_path = default_state_path;
  alert_stabilization_cycles = pos 2;
  health_port = pos 65535;
  metrics_port = pos 9090;
  dry_run = false;
}

unfoldable pub config_program : Unit {0}
unfolding text_eq int_eq nat_eq trim_space has_prefix to_lower atoi digits_value parsed_url
    validate_url validate_http_url validate_not_metadata_endpoint validate_mappings validate_from
    validate_mapping parse_bool lookup_trimmed text_setting lookup_bool duration_setting int_setting
    load_secret_from_file find_mapping_file tls_verify_setting tls_path state_path_setting
    read_settings tls_missing is_https validate_optional_url validate_compose_url check_settings
    load_config
config_program = tt

load_config-IsValid_example :
    (path : Text) × (find_mapping_file small_system ≡ success path)
    × InRange small_config
    × IsConsistent small_system small_config path
unfolding config_program
load_config-IsValid_example = load_config-IsValid small_system small_config refl

abbrev stack_of : Text → StackMapping
stack_of name = record { name = name; compose_url = text "http://h:1/c.yml"; timeout = pos 0 }

abbrev two_stacks : List StackMapping
two_stacks = stack_of (text "shop") ∷ stack_of (text "blog") ∷ []

validate_mappings_lem_example : (validate_mappings parse_any two_stacks ≡ success tt) ↔ (
    (is_nil two_stacks ≡ false) × All (IsStack parse_any) two_stacks × HasDistinctNames two_stacks)
validate_mappings_lem_example = validate_mappings_lem parse_any two_stacks

two_stacks_accepted : validate_mappings parse_any two_stacks ≡ success tt
unfolding config_program
two_stacks_accepted = refl
