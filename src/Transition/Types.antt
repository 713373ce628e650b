-- ===== src/Transition/Types.antt =====
-- Status transitions: the types of internal/transition/transition.go.
use swarm_sentinel.Base.{ℤ, pos, Text, List, [], Option}
use swarm_sentinel.Health.Types.{ServiceStatus, unset, DriftDetail, ServiceHealth}

pub record ReplicaChange : Type 0 where
  pub previous_desired : ℤ
  pub current_desired : ℤ
  pub previous_running : ℤ
  pub current_running : ℤ
  pub desired_delta : ℤ
  pub running_delta : ℤ

pub record ImageChange : Type 0 where
  pub previous_desired : Text
  pub current_desired : Text
  pub previous_actual : Text
  pub current_actual : Text

pub record ServiceTransition : Type 0 where
  pub name : Text
  pub previous_status : ServiceStatus
  pub current_status : ServiceStatus
  pub reasons : List Text
  pub drift : List DriftDetail
  pub replica_change : Option ReplicaChange
  pub image_change : Option ImageChange

-- What a lookup in a map of services yields for a missing key.
abbrev pub zero_service : ServiceHealth
zero_service = record {
  name = [];
  status = unset;
  reasons = [];
  drift = [];
  desired_image = [];
  actual_image = [];
  desired_replicas = pos 0;
  running_replicas = pos 0;
  consecutive_cycles = pos 0;
  last_notified_status = unset;
}
