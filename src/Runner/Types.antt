-- ===== src/Runner/Types.antt =====
-- The runner of one stack: Runner and RuntimeError of internal/runner, and what a cycle meets.
use swarm_sentinel.Base.{ℕ, ℤ, Text, List, Bool, Option, Result}
use swarm_sentinel.Compose.Types.{DesiredState, FetchResult}
use swarm_sentinel.Compose.Parse.{Project, ParseError}
use swarm_sentinel.Swarm.Types.{ActualState}
use swarm_sentinel.State.Types.{State}
use swarm_sentinel.Transition.Types.{ServiceTransition}

-- `external` is an error that a collaborator or the context returned; `runtime` is RuntimeError.
pub data CycleError : Type 0 where
  external : Text → CycleError
  compose_empty bad_interval : CycleError
  compose_invalid : ParseError → CycleError
  runtime : Text → CycleError → CycleError

-- The options of a runner that do not change.
pub record Settings : Type 0 where
  pub poll_interval : ℤ
  pub stack_name : Text
  pub alert_stabilization_cycles : ℤ
  pub stacks_evaluated : ℤ
  pub has_cycle_tracker : Bool
  pub has_metrics : Bool

-- What a runner remembers from one cycle to the next.
pub record Memory : Type 0 where
  pub compose_etag : Text
  pub compose_hash : Text
  pub last_desired_state : Option DesiredState
  pub last_actual_state : Option ActualState

-- The store as one cycle finds it: what Load gives, and the error of a Save, if any.
pub record Store : Type 0 where
  pub load : Result Text State
  pub save : State → Option Text

-- The answers that one cycle gets: from the context (an error once it is done) at its two checks,
-- from the fetcher, the Swarm client, the store and the notifier where the runner has them, and
-- from the clock. SHA-256 and the loader of compose-go are the other two.
pub record World : Type 0 where
  pub canceled_at_start : Option Text
  pub canceled_before_swarm : Option Text
  pub fetch : Option (Text → Result Text FetchResult)
  pub get_actual_state : Option (Text → Result Text (Option ActualState))
  pub store : Option Store
  pub notify : Option (Text → List ServiceTransition → Option Text)
  pub now : ℕ
  pub sha256_hex : Text → Text
  pub load_project : Text → Result Text Project

-- What a cycle does to the outside, in order. Log lines are left out.
pub data Effect : Type 0 where
  saved : State → Effect
  services_total : Text → Text → ℕ → Effect
  alerts_total : Text → Text → Effect
  docker_api_error : Effect
  notified : Text → List ServiceTransition → Effect
  cycle_recorded : ℤ → Effect
  cycle_observed : Effect

-- The end of a cycle: the memory, the effects, and the error if there is one.
pub record Cycle : Type 0 where
  pub memory : Memory
  pub effects : List Effect
  pub error : Option CycleError
