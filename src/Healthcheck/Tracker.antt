-- ===== src/Healthcheck/Tracker.antt =====
-- The tracker of cycles and the handlers of the health endpoints: internal/healthcheck/tracker.go and
-- handlers.go, and the routes that internal/server/server.go gives them. A time is a number of
-- nanoseconds; the zero time is none. The lock is held for the whole of each method.
use swarm_sentinel.Base.{
  ℕ, suc, ◌-◌, ◌/◌, ◌^◌, ℤ, pos, negsuc, int_eq, sub_ℕ, ltb_ℤ, leb_ℤ, ◌-ℤ◌, ◌+ᵢ◌, Text, text, List,
  [], ◌∷◌, ◌++◌, Option, none, some, Bool, true, false, ◌&&◌, ◌==◌, if◌then◌else◌,
}

pub record Snapshot : Type 0 where
  pub last_cycle_time : Option ℤ
  pub cycle_duration_ms : ℤ
  pub stacks_evaluated : ℤ

pub record Tracker : Type 0 where
  pub last_cycle : Option ℤ
  pub cycle_duration : ℤ
  pub stacks_evaluated : ℤ
  pub ready : Bool

-- NewTracker
abbrev pub new_tracker : Tracker
new_tracker = record {
  last_cycle = none;
  cycle_duration = pos 0;
  stacks_evaluated = pos 0;
  ready = false;
}

-- RecordCycle, with the time that the clock shows
unfoldable pub record_cycle : ℤ → ℤ → ℤ → Tracker → Tracker
record_cycle now duration stacks_evaluated t = record {
  last_cycle = some now;
  cycle_duration = duration;
  stacks_evaluated = stacks_evaluated;
  ready = true;
}

-- Go's `d / time.Millisecond`, which rounds towards zero
unfoldable pub milliseconds : ℤ → ℤ
milliseconds (pos n) = pos (n / 1_000_000)
milliseconds (negsuc n) = sub_ℕ 0 (suc n / 1_000_000)

-- Snapshot
unfoldable pub tracker_snapshot : Tracker → Snapshot
unfolding milliseconds
tracker_snapshot t = record {
  last_cycle_time = t.last_cycle;
  cycle_duration_ms = milliseconds t.cycle_duration;
  stacks_evaluated = t.stacks_evaluated;
}

-- `t.Sub(u)`, which stops at the ends of a Duration
unfoldable pub time_sub : ℤ → ℤ → ℤ
unfolding ◌-ℤ◌
time_sub t u =
    let d = t -ℤ u in
    if leb_ℤ (pos (2 ^ 63 - 1)) d
    then pos (2 ^ 63 - 1)
    else if leb_ℤ d (negsuc (2 ^ 63 - 1))
    then negsuc (2 ^ 63 - 1)
    else d

-- Healthy
unfoldable pub is_healthy : ℤ → ℤ → Tracker → Bool
unfolding time_sub ◌+ᵢ◌
is_healthy now poll_interval t = if leb_ℤ poll_interval (pos 0) then false else elim t.last_cycle [
  | none ↦ false
  | some last ↦ leb_ℤ (time_sub now last) (poll_interval +ᵢ poll_interval)
]

-- The status and the body of a response.
pub record Answer : Type 0 where
  pub status : ℕ
  pub body : Snapshot

abbrev pub empty_snapshot : Snapshot
empty_snapshot = record {
  last_cycle_time = none;
  cycle_duration_ms = pos 0;
  stacks_evaluated = pos 0;
}

-- The handler of a test: 200 where there is a tracker that passes it, and else 503.
unfoldable pub answer_by : (Tracker → Bool) → Option Tracker → Answer
unfolding tracker_snapshot
answer_by test tracker = elim tracker [
  | none ↦ record { status = 503; body = empty_snapshot }
  | some t ↦ record { status = if test t then 200 else 503; body = tracker_snapshot t }
]

-- HealthHandler
unfoldable pub health_handler : ℤ → Option Tracker → ℤ → Answer
unfolding answer_by is_healthy
health_handler poll_interval tracker now = answer_by (is_healthy now poll_interval) tracker

-- ReadyHandler
unfoldable pub ready_handler : Option Tracker → Answer
unfolding answer_by
ready_handler tracker = answer_by (λ t. t.ready) tracker

-- The routes of a server.
pub data Route : Type 0 where
  healthz readyz metrics_route : Route

-- A server that is started, by its port and its routes.
pub record Server : Type 0 where
  pub port : ℤ
  pub label : Text
  pub routes : List Route

-- registerHealthRoutes and registerMetricsRoute
abbrev pub health_routes : List Route
health_routes = healthz ∷ readyz ∷ []

abbrev pub metrics_routes : Bool → List Route
metrics_routes has_metrics = if has_metrics then metrics_route ∷ [] else []

-- Start of internal/server/server.go: the servers that it starts
unfoldable pub start_servers : Bool → ℤ → ℤ → List Server
start_servers has_metrics health_port metrics_port =
    if health_port == pos 0 && metrics_port == pos 0
    then []
    else if ltb_ℤ (pos 0) health_port && (ltb_ℤ (pos 0) metrics_port && health_port == metrics_port)
    then record {
      port = health_port;
      label = text "health/metrics";
      routes = health_routes ++ metrics_routes has_metrics;
    }
      ∷ []
    else (if ltb_ℤ (pos 0) health_port
        then record { port = health_port; label = text "health"; routes = health_routes } ∷ []
        else [])
      ++ (if ltb_ℤ (pos 0) metrics_port
          then record {
            port = metrics_port;
            label = text "metrics";
            routes = metrics_routes has_metrics;
          }
            ∷ []
          else [])
