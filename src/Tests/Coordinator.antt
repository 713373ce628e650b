-- ===== src/Tests/Coordinator.antt =====
-- Two stacks over one store.
use swarm_sentinel.Base.{
  pos, Text, text, text_eq, int_eq, nat_eq, to_lower, has_prefix, List, [], ◌∷◌, none, some, true,
  false, success, refl, All, arith,
}
use swarm_sentinel.State.Types.{State}
use swarm_sentinel.Runner.Types.{World}
use swarm_sentinel.Compose.Types.{FetchResult}
use swarm_sentinel.Config.Url.{
  Parser, parsed_url, validate_http_url, validate_not_metadata_endpoint,
}
use swarm_sentinel.Config.Types.{Config}
use swarm_sentinel.Config.Mapping.{StackMapping, validate_mappings, validate_from, validate_mapping}
use swarm_sentinel.Coordinator.Spawn.{Coordinator, spawn}
use swarm_sentinel.Coordinator.Outcomes.{HasOutcome, spawn-outcomes}
use swarm_sentinel.Coordinator.Turns.{Turn}

abbrev any_config : Config
any_config = record {
  poll_interval = pos 30;
  compose_timeout = pos 10;
  docker_api_timeout = pos 10;
  compose_url = [];
  slack_webhook_url = [];
  webhook_url = [];
  webhook_template = [];
  docker_proxy_url = [];
  stack_name = [];
  docker_tls_enabled = false;
  docker_tls_verify = false;
  docker_tls_ca = [];
  docker_tls_cert = [];
  docker_tls_key = [];
  log_level = [];
  state_path = text "s";
  alert_stabilization_cycles = pos 2;
  health_port = pos 0;
  metrics_port = pos 0;
  dry_run = false;
}

abbrev pub parse_http : Parser
parse_http value = success (record { scheme = text "http"; host = text "h"; hostname = text "h" })

abbrev mapped : Text → StackMapping
mapped name = record { name = name; compose_url = text "http://h/c.yml"; timeout = pos 0 }

abbrev pub both_stacks : Coordinator
both_stacks = record {
  cfg = any_config;
  mappings = mapped (text "shop") ∷ mapped (text "blog") ∷ [];
  has_state_store = true;
  has_state_lock = true;
  has_notifier = false;
  has_cycle_tracker = false;
  has_metrics = false;
  alert_stabilization_cycles = pos 2;
}

abbrev compose_page : FetchResult
compose_page = record { body = text "x"; etag = []; last_modified = []; not_modified = false }

abbrev pub a_world : World
a_world = record {
  canceled_at_start = none;
  canceled_before_swarm = none;
  fetch = some (λ etag. success compose_page);
  get_actual_state = some (λ stack. success none);
  store = none;
  notify = none;
  now = 7;
  sha256_hex = λ body. body;
  load_project = λ body. success (record {
    services =
        (
          text "web",
          record { image = text "i"; deploy = none; scale = none; configs = []; secrets = [] },
        )
        ∷ [];
    configs = [];
    secrets = [];
  });
}

abbrev pub turn_of : Text → Turn
turn_of name = record { name = name; world = a_world; load_error = none; save_error = none }

abbrev pub no_state : State
no_state = record { version = pos 1; stacks = [] }

abbrev some_turns : List Turn
some_turns = turn_of (text "shop") ∷ turn_of (text "blog") ∷ turn_of (text "shop") ∷ []

spawn-outcomes_example :
    let all = spawn both_stacks in
    All (HasOutcome all.runners all.runner_errors) both_stacks.mappings
unfolding text_eq nat_eq to_lower has_prefix parsed_url validate_http_url
    validate_not_metadata_endpoint validate_mappings validate_from validate_mapping
spawn-outcomes_example = spawn-outcomes both_stacks parse_http (omega arith) refl
