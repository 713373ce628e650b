-- ===== src/Swarm/Types.antt =====
-- The runtime state of a stack: internal/swarm/client.go (ActualService, ActualState).
use swarm_sentinel.Base.{ℤ, Text, List}
use swarm_sentinel.Base.Dict.{Dict}

pub record ActualService : Type 0 where
  pub name : Text
  pub image : Text
  pub mode : Text
  pub desired_replicas : ℤ
  pub running_replicas : ℤ
  pub configs : List Text
  pub secrets : List Text
  pub update_state : Text

pub record ActualState : Type 0 where
  pub services : Dict Text ActualService
