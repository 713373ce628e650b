-- ===== src/Tests/Threads.antt =====
-- Two threads that meet at the lock.
use swarm_sentinel.Base.{
  pos, Text, text, text_eq, int_eq, nat_eq, to_lower, trim_space, has_prefix, [], ◌∷◌, none, some,
  true, false, ◌≡◌, refl,
}
use swarm_sentinel.Base.Dict.{lookup, insert}
use swarm_sentinel.Compose.Parse.{
  parse_desired_state, parse_services, parse_service, resolve_names, resolve_sources,
}
use swarm_sentinel.Compose.Names.{normalize_names}
use swarm_sentinel.Config.Url.{parsed_url, validate_http_url, validate_not_metadata_endpoint}
use swarm_sentinel.Config.Mapping.{validate_mappings, validate_from, validate_mapping}
use swarm_sentinel.Runner.Cycle.{accept_result, accept_body, fingerprint, with_snapshot, stack_key}
use swarm_sentinel.Compose.Types.{DesiredState}
use swarm_sentinel.Runner.Types.{Memory, Cycle}
use swarm_sentinel.Runner.Options.{
  Runner, with_stacks_evaluated, with_alert_stabilization_cycles, with_state_store, with_stack_name,
  with_swarm_client, with_compose_fetcher,
}
use swarm_sentinel.Runner.Phases.{evaluates, saved_cycle, evaluate_loaded}
use swarm_sentinel.Coordinator.Turns.{Fleet, take_turns}
use swarm_sentinel.Coordinator.Isolation.{own_log, turns_of}
use swarm_sentinel.Coordinator.Fleet.{started_fleet}
use swarm_sentinel.Coordinator.Threads.{
  met, prepare_turn, entering, holding, loaded, leaving, reporting, Crew, move, complete,
  comes_to_lock, locks, loads, saves, unlocks, Reach, start, later, at_rest,
}
use swarm_sentinel.Coordinator.Serial.{Reach-serial, Reach-isolation}
use swarm_sentinel.Coordinator.Waiting.{Steps, Reach-enters}
use swarm_sentinel.Tests.Coordinator.{both_stacks, parse_http, turn_of, no_state}

abbrev runner_of : Text → Runner
runner_of name = record {
  settings = record {
    poll_interval = pos 30;
    stack_name = name;
    alert_stabilization_cycles = pos 2;
    stacks_evaluated = pos 2;
    has_cycle_tracker = false;
    has_metrics = false;
  };
  memory = record {
    compose_etag = [];
    compose_hash = [];
    last_desired_state = none;
    last_actual_state = none;
  };
  fetcher =
      some (record { max_bytes = pos 5_242_880; max_retries = 3; retry_delay = pos 1_000_000_000 });
  has_swarm_client = true;
  has_state_store = true;
  has_state_lock = true;
  has_notifier = false;
}

abbrev pub wanted : DesiredState
wanted = record {
  services =
      (
        text "web",
        record {
          image = text "i";
          mode = text "replicated";
          replicas = pos 1;
          configs = [];
          secrets = [];
        },
      )
      ∷ [];
}

abbrev pub refreshed : Memory
refreshed = record {
  compose_etag = [];
  compose_hash = text "x";
  last_desired_state = some wanted;
  last_actual_state = none;
}

shop_prepares :
    prepare_turn (runner_of (text "shop")) (turn_of (text "shop")) ≡ evaluates refreshed wanted
unfolding prepare_turn text_eq int_eq nat_eq to_lower has_prefix accept_result accept_body
    fingerprint parse_desired_state parse_services parse_service resolve_names resolve_sources
    insert normalize_names
shop_prepares = refl

blog_prepares :
    prepare_turn (runner_of (text "blog")) (turn_of (text "blog")) ≡ evaluates refreshed wanted
unfolding prepare_turn text_eq int_eq nat_eq to_lower has_prefix accept_result accept_body
    fingerprint parse_desired_state parse_services parse_service resolve_names resolve_sources
    insert normalize_names
blog_prepares = refl

abbrev fleet : Fleet
fleet = started_fleet both_stacks no_state

shop_stands : lookup (text "shop") fleet.runners ≡ some (runner_of (text "shop"))
unfolding started_fleet text_eq int_eq nat_eq to_lower trim_space has_prefix lookup
    with_stacks_evaluated with_alert_stabilization_cycles with_state_store with_stack_name
    with_swarm_client with_compose_fetcher
shop_stands = refl

blog_stands : lookup (text "blog") fleet.runners ≡ some (runner_of (text "blog"))
unfolding started_fleet text_eq int_eq nat_eq to_lower trim_space has_prefix lookup
    with_stacks_evaluated with_alert_stabilization_cycles with_state_store with_stack_name
    with_swarm_client with_compose_fetcher
blog_stands = refl

-- Both threads come to the lock, and the one of the shop gets it.
abbrev shop : Text
shop = text "shop"

abbrev blog : Text
blog = text "blog"

abbrev waiting : Crew
waiting =
    move (move (at_rest fleet) blog (entering (runner_of blog) (turn_of blog) refreshed wanted))
      shop (entering (runner_of shop) (turn_of shop) refreshed wanted)

abbrev locked : Crew
locked = record (move waiting shop (holding (runner_of shop) (turn_of shop) refreshed wanted)) {
  holder = some shop;
}

abbrev shop_loaded : Crew
shop_loaded = move locked shop (loaded (runner_of shop) (turn_of shop) refreshed wanted no_state)

abbrev shop_cycle : Cycle
shop_cycle =
    saved_cycle (runner_of shop).settings (met (runner_of shop) (turn_of shop)) refreshed wanted
      no_state

abbrev shop_saved : Crew
shop_saved = record (move shop_loaded shop (leaving (runner_of shop) (turn_of shop) shop_cycle)) {
  fleet = record fleet {
    shared =
        (evaluate_loaded (runner_of shop).settings (met (runner_of shop) (turn_of shop)) refreshed
          wanted no_state).0;
  };
}

abbrev unlocked : Crew
unlocked =
    record (complete shop_saved (runner_of shop) (turn_of shop) shop_cycle (reporting shop_cycle)) {
      holder = none;
    }

waiting-Reach : Reach true fleet waiting
unfolding text_eq nat_eq
waiting-Reach =
    later
      (later start (
        comes_to_lock (runner_of blog) (turn_of blog) refreshed wanted blog_stands refl
          blog_prepares))
      (comes_to_lock (runner_of shop) (turn_of shop) refreshed wanted shop_stands refl
        shop_prepares)

shop_loaded-Reach : Reach true fleet shop_loaded
unfolding text_eq nat_eq started_fleet
shop_loaded-Reach =
    later
      (later waiting-Reach
        (locks shop (runner_of shop) (turn_of shop) refreshed wanted refl (λ shares. refl)))
      (loads shop (runner_of shop) (turn_of shop) refreshed wanted refl refl)

unlocked-Reach : Reach true fleet unlocked
unfolding text_eq nat_eq
unlocked-Reach =
    later
      (later shop_loaded-Reach
        (saves shop (runner_of shop) (turn_of shop) refreshed wanted no_state refl refl))
      (unlocks shop (runner_of shop) (turn_of shop) shop_cycle refl)

Reach-serial_example : (unlocked.log, unlocked.fleet) ≡ take_turns fleet unlocked.turns
Reach-serial_example = Reach-serial fleet unlocked unlocked-Reach refl

Reach-enters_example :
    (t : Crew) × Steps shop_loaded t
    × (t.holder ≡ some blog)
    × (t.phase blog ≡ holding (runner_of blog) (turn_of blog) refreshed wanted)
unfolding text_eq nat_eq
Reach-enters_example =
    Reach-enters fleet shop_loaded blog (runner_of blog) (turn_of blog) refreshed wanted
      shop_loaded-Reach refl

Reach-isolation_example :
    let alone = take_turns fleet (turns_of shop unlocked.turns) in
    (own_log shop unlocked.log ≡ own_log shop alone.0)
    × (lookup shop unlocked.fleet.runners ≡ lookup shop alone.1.runners)
    × (lookup shop unlocked.fleet.shared.stacks ≡ lookup shop alone.1.shared.stacks)
unfolding text_eq int_eq nat_eq to_lower trim_space has_prefix parsed_url validate_http_url
    validate_not_metadata_endpoint validate_mappings validate_from validate_mapping
Reach-isolation_example =
    Reach-isolation both_stacks parse_http no_state unlocked shop refl refl refl unlocked-Reach refl

-- Without a lock that they share, the snapshot of one stack can be lost.
lost_snapshot : (s : Crew) × Reach false fleet s × (lookup shop s.fleet.shared.stacks ≡ none)
unfolding text_eq nat_eq started_fleet lookup insert evaluate_loaded with_snapshot stack_key
lost_snapshot =
    let both =
      later
        (later start (
          comes_to_lock (runner_of blog) (turn_of blog) refreshed wanted blog_stands refl
            blog_prepares))
        (comes_to_lock (runner_of shop) (turn_of shop) refreshed wanted shop_stands refl
          shop_prepares) in
    let hold =
      later
        (later both
          (locks shop (runner_of shop) (turn_of shop) refreshed wanted refl (λ shares. cc)))
        (locks blog (runner_of blog) (turn_of blog) refreshed wanted refl (λ shares. cc)) in
    let load =
      later (later hold (loads shop (runner_of shop) (turn_of shop) refreshed wanted refl refl))
        (loads blog (runner_of blog) (turn_of blog) refreshed wanted refl refl) in
    let save =
      later
        (later load
          (saves shop (runner_of shop) (turn_of shop) refreshed wanted no_state refl refl))
        (saves blog (runner_of blog) (turn_of blog) refreshed wanted no_state refl refl) in
    (_, save, refl)
