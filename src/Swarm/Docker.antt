-- ===== src/Swarm/Docker.antt =====
-- The fields that the code reads of the Docker SDK's types.
use swarm_sentinel.Base.{ℕ, Text, List, Bool, Option}

-- swarm.ServiceMode: the outer option of `replicated` is the pointer to the mode, the inner one the
-- pointer to the count; of the other modes only their presence is read.
pub record ServiceMode : Type 0 where
  pub replicated : Option (Option ℕ)
  pub global : Bool
  pub replicated_job : Bool
  pub global_job : Bool

-- swarm.Service: the image is that of the container spec, `desired_tasks` that of the status.
pub record DockerService : Type 0 where
  pub id : Text
  pub name : Text
  pub mode : ServiceMode
  pub image : Option Text
  pub update_state : Option Text
  pub desired_tasks : Option ℕ

-- swarm.ContainerSpec: the names of the references, none for a nil pointer.
pub record ContainerSpec : Type 0 where
  pub configs : List (Option Text)
  pub secrets : List (Option Text)

-- swarm.Task
pub record Task : Type 0 where
  pub id : Text
  pub state : Text
  pub container_spec : Option ContainerSpec

-- An error of a Docker call, by what the code asks of it: its chain and its text.
pub record DockerError : Type 0 where
  pub is_canceled : Bool
  pub is_unauthorized : Bool
  pub is_forbidden : Bool
  pub is_deadline_exceeded : Bool
  pub is_temporary_net : Bool
  pub message : Text
