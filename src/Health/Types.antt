-- ===== src/Health/Types.antt =====
-- Health results: internal/health/health.go, with the order of the statuses of evaluate.go.
use native.Mathlib.Decide.{ℕ_discrete}
use swarm_sentinel.Base.{ℕ, ℤ, Text, text, List, [], Eq, ltb, if◌then◌else◌}
use swarm_sentinel.Base.Dict.{Dict}

-- A ServiceStatus is a string. `other` stands for any but the three constants, the empty one
-- among them.
pub data ServiceStatus : Type 0 where
  ok degraded failed : ServiceStatus
  other : Text → ServiceStatus

-- The zero value.
abbrev pub unset : ServiceStatus
unset = other []

status_dec : Discrete ServiceStatus
unfolding ℕ_discrete
status_dec = hlevel ℕ_discrete

instance unfoldable pub status_eq : Eq ServiceStatus
unfolding status_dec
status_eq = record { dec = status_dec }

-- `string(status)`
abbrev pub status_text : ServiceStatus → Text
status_text ok = text "OK"
status_text degraded = text "DEGRADED"
status_text failed = text "FAILED"
status_text (other t) = t

pub data DriftKind : Type 0 where
  missing extra extra_service : DriftKind

pub record DriftDetail : Type 0 where
  pub kind : DriftKind
  pub resource : Text
  pub name : Text

pub record ServiceHealth : Type 0 where
  pub name : Text
  pub status : ServiceStatus
  pub reasons : List Text
  pub drift : List DriftDetail
  pub desired_image : Text
  pub actual_image : Text
  pub desired_replicas : ℤ
  pub running_replicas : ℤ
  pub consecutive_cycles : ℤ
  pub last_notified_status : ServiceStatus

pub record StackHealth : Type 0 where
  pub status : ServiceStatus
  pub services : Dict Text ServiceHealth

abbrev pub severity : ServiceStatus → ℕ
severity failed = 2
severity degraded = 1
severity ok = 0
severity (other _) = 0

abbrev pub worsen_status : ServiceStatus → ServiceStatus → ServiceStatus
worsen_status current next = if ltb (severity current) (severity next) then next else current
