-- ===== src/Tests/Cycle.antt =====
-- Cycles of a runner with their error paths.
use swarm_sentinel.Base.{
  pos, text, text_eq, int_eq, List, [], ◌∷◌, none, some, true, false, success, failure, ◌≡◌, refl,
}
use swarm_sentinel.Compose.Types.{DesiredState, FetchResult}
use swarm_sentinel.Compose.Parse.{load_failed, parse_desired_state}
use swarm_sentinel.Health.Types.{status_eq}
use swarm_sentinel.Runner.Types.{
  external, compose_invalid, runtime, Settings, Memory, Store, World, Cycle,
}
use swarm_sentinel.Runner.Cycle.{
  stack_key, fingerprint, evaluate_and_persist, accept_body, accept_result, refresh_desired,
  evaluate_step, collect_actual, default_run_once, notify_transitions, record_metrics,
  with_snapshot, cycle_records, run_once, tick, done, run,
}
use swarm_sentinel.Runner.Persist.{
  HasPersisted, evaluate_and_persist-saved, evaluate_and_persist-failed,
}
use swarm_sentinel.Runner.Errors.{IsQuiet, saves_first, run_once-failed, run_once-order}
use swarm_sentinel.Runner.Refresh.{invalid_compose_masked}
use swarm_sentinel.Tests.Health
use swarm_sentinel.Tests.Runner
use swarm_sentinel.Runner.Loop.{IsChained, run_lem}

abbrev settings : Settings
settings = record {
  poll_interval = pos 30;
  stack_name = text "prod";
  alert_stabilization_cycles = pos 2;
  stacks_evaluated = pos 1;
  has_cycle_tracker = true;
  has_metrics = true;
}

abbrev fresh : Memory
fresh = record {
  compose_etag = [];
  compose_hash = [];
  last_desired_state = none;
  last_actual_state = none;
}

abbrev working : Store
working = record { load = success (record { version = pos 1; stacks = [] }); save = λ next. none }

abbrev broken : Store
broken = record working { save = λ next. some (text "disk full") }

abbrev page : FetchResult
page = record { body = text "x"; etag = text "v1"; last_modified = []; not_modified = false }

-- The compose file does not load.
abbrev world : World
world = record {
  canceled_at_start = none;
  canceled_before_swarm = none;
  fetch = some (λ etag. success page);
  get_actual_state = some (λ stack. success none);
  store = some working;
  notify = none;
  now = 7;
  sha256_hex = λ body. body;
  load_project = λ body. failure (text "bad yaml");
}

abbrev offline : World
offline = record world { fetch = some (λ etag. failure (text "no route")) }

abbrev nothing : DesiredState
nothing = record { services = [] }

program : Unit {0}
unfolding text_eq int_eq stack_key fingerprint evaluate_and_persist accept_body accept_result
    refresh_desired notify_transitions record_metrics with_snapshot evaluate_step collect_actual
    default_run_once cycle_records run_once parse_desired_state
program = tt

evaluate_and_persist-failed_example :
    (evaluate_and_persist settings world fresh nothing broken).0 ≡ []
unfolding evaluate_and_persist
evaluate_and_persist-failed_example =
    evaluate_and_persist-failed settings world fresh nothing broken
      (runtime (text "state save") (external (text "disk full"))) refl

run_once-failed_example : IsQuiet (run_once settings offline fresh).effects
unfolding program
run_once-failed_example =
    run_once-failed settings offline fresh
      {e = runtime (text "compose fetch") (external (text "no route"))} refl

invalid_compose_masked_example :
    let first = refresh_desired world fresh in
    (first.1
      ≡ some (runtime (text "compose parse") (compose_invalid (load_failed (text "bad yaml")))))
    × (first.0.last_desired_state ≡ none)
    × (first.0.compose_hash ≡ text "x")
    × (refresh_desired world first.0 ≡ (first.0, none))
unfolding parse_desired_state
invalid_compose_masked_example =
    invalid_compose_masked world fresh {fetch = λ etag. success page} page refl (λ etag. refl) refl
      (cc) (cc) refl

run_lem_example :
    (cycles : List Cycle) × (run settings offline (tick offline ∷ done ∷ []) fresh
      ≡ success (cycles, true))
    × IsChained settings fresh cycles (offline ∷ offline ∷ [])
run_lem_example = run_lem settings offline (tick offline ∷ done ∷ []) fresh

evaluate_and_persist-saved_example : HasPersisted settings world fresh nothing working
unfolding evaluate_and_persist
evaluate_and_persist-saved_example =
    evaluate_and_persist-saved settings world fresh nothing working refl

-- A desired service that is missing, and a notifier to tell of it.
abbrev alerting : World
alerting = record world { fetch = none; notify = some (λ stack transitions. none) }

abbrev wanting : Memory
wanting = record fresh {
  last_desired_state = some (record {
    services =
        (
          text "api",
          record {
            image = text "app";
            mode = text "replicated";
            replicas = pos 1;
            configs = [];
            secrets = [];
          },
        )
        ∷ [];
  });
}

run_once-order_example : saves_first (run_once settings alerting wanting).effects ≡ true
unfolding program Health.program Runner.program
run_once-order_example = run_once-order settings alerting wanting refl

abbrev valid : World
valid = record world {
  load_project = λ body. success (record {
    services =
        (
          text "web",
          record { image = text "nginx"; deploy = none; scale = none; configs = []; secrets = [] },
        )
        ∷ [];
    configs = [];
    secrets = [];
  });
}
