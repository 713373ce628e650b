-- ===== src/Tests/Healthcheck.antt =====
-- The health endpoints after concrete cycles.
use swarm_sentinel.Base.{
  ℕ, ℤ, List, none, true, false, text, failure, pos, [], ◌∷◌, some, arith, ◌≡◌, refl,
}
use swarm_sentinel.Healthcheck.Tracker.{new_tracker, health_handler, ready_handler}
use swarm_sentinel.Healthcheck.Answers.{
  Recorded, last_recorded, ready_status, health_status, body_of,
}
use swarm_sentinel.Healthcheck.Tracked.{TimedCycle, track_cycles, successes, handlers-track_cycles}
use swarm_sentinel.Runner.Types.{Settings, World}
use swarm_sentinel.Runner.Cycle.{run_once, default_run_once, refresh_desired, collect_actual}

abbrev early_cycle : Recorded
early_cycle = record { time = 5; duration = pos 2_000_000; stacks = pos 1 }

abbrev late_cycle : Recorded
late_cycle = record { time = 40; duration = pos 3_000_000; stacks = pos 1 }

abbrev settings_of : ℤ → Settings
settings_of count = record {
  poll_interval = pos 30;
  stack_name = text "shop";
  alert_stabilization_cycles = pos 2;
  stacks_evaluated = count;
  has_cycle_tracker = true;
  has_metrics = false;
}

abbrev idle_world : World
idle_world = record {
  canceled_at_start = none;
  canceled_before_swarm = none;
  fetch = none;
  get_actual_state = none;
  store = none;
  notify = none;
  now = 7;
  sha256_hex = λ body. body;
  load_project = λ body. failure (text "no project");
}

abbrev canceled_world : World
canceled_world = record idle_world { canceled_at_start = some (text "canceled") }

abbrev cycle_in : World → ℕ → TimedCycle
cycle_in world time = record {
  settings = settings_of (pos 1);
  world = world;
  memory = record {
    compose_etag = [];
    compose_hash = [];
    last_desired_state = none;
    last_actual_state = none;
  };
  time = time;
  duration = pos 2_000_000;
}

-- A cycle without an error, and one that ends in an error.
abbrev fine_then_failed : List TimedCycle
fine_then_failed = cycle_in idle_world 5 ∷ cycle_in canceled_world 40 ∷ []

handlers-track_cycles_example :
    let t = some (track_cycles fine_then_failed new_tracker) in
    let last = last_recorded (successes fine_then_failed) in
    (ready_handler t ≡ record { status = ready_status last; body = body_of last })
    × (health_handler (pos 30) t (pos 66)
        ≡ record { status = health_status 66 30 last; body = body_of last })
handlers-track_cycles_example =
    handlers-track_cycles fine_then_failed 66 30 (omega arith) (omega arith) (omega arith)
      (omega arith, (omega arith, tt)) (refl, (refl, tt))

-- The cycle that failed has left no trace.
failed_is_stale : health_status 66 30 (last_recorded (successes fine_then_failed)) ≡ 503
unfolding run_once default_run_once refresh_desired collect_actual
failed_is_stale = refl

-- One nanosecond after two intervals the cycle is stale.
late_cycle_stale : health_status 101 30 (last_recorded (early_cycle ∷ late_cycle ∷ [])) ≡ 503
late_cycle_stale = refl

late_cycle_fresh : health_status 100 30 (last_recorded (early_cycle ∷ late_cycle ∷ [])) ≡ 200
late_cycle_fresh = refl
