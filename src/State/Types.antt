-- ===== src/State/Types.antt =====
-- Persisted state: internal/state/state.go. A time is a number of nanoseconds.
use swarm_sentinel.Base.{ℕ, ℤ, pos, Text}
use swarm_sentinel.Base.Dict.{Dict}
use swarm_sentinel.Health.Types.{ServiceHealth}

pub record StackSnapshot : Type 0 where
  pub desired_fingerprint : Text
  pub services : Dict Text ServiceHealth
  pub evaluated_at : ℕ

-- CurrentStateVersion
abbrev pub current_state_version : ℤ
current_state_version = pos 1

pub record State : Type 0 where
  pub version : ℤ
  pub stacks : Dict Text StackSnapshot
