-- ===== src/Metrics/Totals.antt =====
-- What a log of the runners' updates says that the collectors of internal/metrics/metrics.go are to
-- show.
use swarm_sentinel.Base.{
  ℕ, ℤ, Text, text_eq, List, [], ◌∷◌, ◌++◌, Option, none, some, ◌&&◌, ◌==◌, ◌+◌, if◌then◌else◌,
}
use swarm_sentinel.Runner.Types.{
  Effect, saved, services_total, alerts_total, docker_api_error, notified, cycle_recorded,
  cycle_observed,
}
use swarm_sentinel.Metrics.Collectors.{Timed}

-- `a`, or else `b`
abbrev pub or_else {ℓ} : {A : Type ℓ} → Option A → Option A → Option A
or_else (some a) b = some a
or_else none b = b

-- The last number of services of this stack and status.
abbrev pub services_in : Text → Text → Effect → Option ℕ
services_in stack status (services_total a b n) =
    if (stack == a) && (status == b) then some n else none
services_in stack status _ = none

unfoldable pub last_services : Text → Text → List Timed → Option ℕ
last_services stack status [] = none
last_services stack status (t ∷ ts) =
    or_else (last_services stack status ts) (services_in stack status t.effect)

-- How many alerts of this stack and severity there are.
abbrev pub alerts_in : Text → Text → Effect → ℕ
alerts_in stack severity (alerts_total a b) = if (stack == a) && (severity == b) then 1 else 0
alerts_in stack severity _ = 0

unfoldable pub alerts_of : Text → Text → List Timed → ℕ
alerts_of stack severity [] = 0
alerts_of stack severity (t ∷ ts) = alerts_in stack severity t.effect + alerts_of stack severity ts

-- How many errors of the Docker API there are.
abbrev pub api_errors_in : Effect → ℕ
api_errors_in docker_api_error = 1
api_errors_in _ = 0

unfoldable pub api_errors_of : List Timed → ℕ
api_errors_of [] = 0
api_errors_of (t ∷ ts) = api_errors_in t.effect + api_errors_of ts

-- The end of the last successful cycle.
abbrev pub end_in : Timed → Option ℤ
end_in t = elim t.effect [
  | saved _ ↦ none
  | services_total _ _ _ ↦ none
  | alerts_total _ _ ↦ none
  | docker_api_error ↦ none
  | notified _ _ ↦ none
  | cycle_recorded _ ↦ none
  | cycle_observed ↦ some t.ended_at
]

unfoldable pub last_end : List Timed → Option ℤ
last_end [] = none
last_end (t ∷ ts) = or_else (last_end ts) (end_in t)

-- The durations of the successful cycles, the last one first.
abbrev pub duration_in : Timed → List ℤ
duration_in t = elim t.effect [
  | saved _ ↦ []
  | services_total _ _ _ ↦ []
  | alerts_total _ _ ↦ []
  | docker_api_error ↦ []
  | notified _ _ ↦ []
  | cycle_recorded _ ↦ []
  | cycle_observed ↦ t.duration ∷ []
]

unfoldable pub durations : List Timed → List ℤ
durations [] = []
durations (t ∷ ts) = durations ts ++ duration_in t
