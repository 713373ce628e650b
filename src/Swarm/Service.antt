-- ===== src/Swarm/Service.antt =====
-- What is read off one service and its tasks: internal/swarm/docker_client.go.
use swarm_sentinel.Base.{
  ℤ, pos, of_bits, ◌+ᵢ◌, Text, text, text_eq, has_prefix, trim_prefix, List, [], ◌∷◌, ◌++◌, Option,
  none, some, ◌==◌, contains, is_nil, if◌then◌else◌,
}
use swarm_sentinel.Base.Sort.{sort_texts}
use swarm_sentinel.Swarm.Docker.{DockerService, Task}

-- normalizeServiceName
unfoldable pub normalize_service_name : Text → Text → Text
unfolding has_prefix trim_prefix
normalize_service_name name stack_name =
    if is_nil stack_name
    then name
    else let prefix = stack_name ++ text "_" in
      if has_prefix name prefix then trim_prefix name prefix else name

-- The desired tasks of the service status, or 0.
unfoldable pub status_tasks : DockerService → ℤ
status_tasks service = elim service.desired_tasks [ none ↦ pos 0 | some n ↦ of_bits n ]

-- serviceModeAndReplicas
unfoldable pub service_mode_and_replicas : DockerService → Text × ℤ
unfolding status_tasks of_bits
service_mode_and_replicas service = elim service.mode.replicated [
  | some (some n) ↦ (text "replicated", of_bits n)
  | some none ↦ (text "replicated", status_tasks service)
  | none ↦
      if service.mode.global
      then (text "global", status_tasks service)
      else if service.mode.replicated_job
      then (text "replicated-job", status_tasks service)
      else if service.mode.global_job
      then (text "global-job", status_tasks service)
      else (text "unknown", status_tasks service)
]

-- `set[name] = struct{}{}`
unfoldable pub add_name : Text → List Text → List Text
add_name name set = if contains set name then set else name ∷ set

-- The loop over the references of one kind; a nil one and an empty name are passed over.
unfoldable pub add_names : List (Option Text) → List Text → List Text
unfolding add_name
add_names [] set = set
add_names (none ∷ refs) set = add_names refs set
add_names (some name ∷ refs) set = add_names refs (if is_nil name then set else add_name name set)

-- The running tasks, and the sets of config and secret names.
pub record Summary : Type 0 where
  pub running : ℤ
  pub configs : List Text
  pub secrets : List Text

unfoldable pub add_task : Task → Summary → Summary
unfolding add_names ◌+ᵢ◌
add_task task summary =
    if task.state == text "running"
    then (elim task.container_spec [
      | none ↦ record summary { running = summary.running +ᵢ pos 1 }
      | some spec ↦ record {
        running = summary.running +ᵢ pos 1;
        configs = add_names spec.configs summary.configs;
        secrets = add_names spec.secrets summary.secrets;
      }
    ])
    else summary

unfoldable pub add_tasks : List Task → Summary → Summary
add_tasks [] summary = summary
add_tasks (task ∷ tasks) summary = add_tasks tasks (add_task task summary)

-- summarizeTasks, the sets sorted by normalizeNames
unfoldable pub summarize_tasks : List Task → Summary
unfolding sort_texts
summarize_tasks tasks =
    let summary = add_tasks tasks (record { running = pos 0; configs = []; secrets = [] }) in
    record summary { configs = sort_texts summary.configs; secrets = sort_texts summary.secrets }
