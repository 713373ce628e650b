-- ===== src/Swarm/Client.antt =====
-- The Docker client: listServices, listTasks, collectServiceState and GetActualState of
-- internal/swarm/docker_client.go. The daemon is a parameter: what each query meets at each attempt.
use swarm_sentinel.Base.{
  ℕ, leb, length, ℤ, pos, leb_ℤ, Text, text_eq, List, [], ◌∷◌, none, some, Result, success, failure,
  if◌then◌else◌,
}
use swarm_sentinel.Base.Dict.{Dict, insert}
use swarm_sentinel.Swarm.Types.{ActualService, ActualState}
use swarm_sentinel.Swarm.Docker.{DockerService, Task}
use swarm_sentinel.Swarm.Service.{
  normalize_service_name, service_mode_and_replicas, summarize_tasks,
}
use swarm_sentinel.Swarm.Retry.{RetryError, Attempts, with_retry}
use swarm_sentinel.Swarm.Pagination.{max_list_page_size, paginate_by_id_prefix}

-- What the queries of one listing meet: that of the base filters alone, and those of a prefix.
-- A listing asks each of them at most once.
pub record Queries {ℓ} (A : Type ℓ) : Type ℓ where
  pub whole : Attempts A
  pub by_prefix : Text → Attempts A

-- The daemon: the services of a stack, or all of them for an empty name, and the tasks of a service.
pub record Daemon : Type 0 where
  pub services : Text → Queries (List DockerService)
  pub tasks : Text → Queries (List Task)

module _ {ℓ} {A : Type ℓ} (id_of : A → Text) (backoffs : List ℕ) where
  -- paginateByIDPrefix with the retried call
  unfoldable pub list_pages : Queries (List A) → Result RetryError (List A)
  unfolding paginate_by_id_prefix
  list_pages queries =
      paginate_by_id_prefix id_of
        (λ prefix. (with_retry (queries.by_prefix prefix) backoffs).result)

  -- The whole listing, or the pages where it fails or is too long.
  unfoldable pub list_whole : Queries (List A) → Result RetryError (List A)
  unfolding list_pages with_retry
  list_whole queries =
      let pages = list_pages queries in
      elim ((with_retry queries.whole backoffs).result) [
        | success items ↦
            if leb (length items) max_list_page_size
            then success items
            else elim pages [ success paged ↦ success paged | failure e ↦ success items ]
        | failure e ↦ elim pages [ success paged ↦ success paged | failure e' ↦ failure e ]
      ]

-- listServices
unfoldable pub list_services :
    List ℕ → Queries (List DockerService) → Result RetryError (List DockerService)
unfolding list_whole
list_services backoffs = list_whole (λ service. service.id) backoffs

-- listTasks
unfoldable pub list_tasks : List ℕ → Queries (List Task) → ℤ → Result RetryError (List Task)
unfolding list_whole list_pages
list_tasks backoffs queries expected =
    if leb_ℤ expected (pos max_list_page_size)
    then list_whole (λ task. task.id) backoffs queries
    else list_pages (λ task. task.id) backoffs queries

module _ (daemon : Daemon) (backoffs : List ℕ) (stack_name : Text) where
  -- collectServiceState
  unfoldable pub collect_service_state : DockerService → Result RetryError ActualService
  unfolding list_tasks normalize_service_name service_mode_and_replicas summarize_tasks
  collect_service_state service =
      let (mode, desired) = service_mode_and_replicas service in
      elim (list_tasks backoffs (daemon.tasks service.id) desired) [
        | failure e ↦ failure e
        | success tasks ↦
            let summary = summarize_tasks tasks in
            success (record {
              name = normalize_service_name service.name stack_name;
              image = elim service.image [ none ↦ [] | some image ↦ image ];
              mode = mode;
              desired_replicas = desired;
              running_replicas = summary.running;
              configs = summary.configs;
              secrets = summary.secrets;
              update_state = elim service.update_state [ none ↦ [] | some state ↦ state ];
            })
      ]

  -- The loop over the services.
  unfoldable pub collect_services :
      List DockerService → Dict Text ActualService → Result RetryError (Dict Text ActualService)
  unfolding collect_service_state insert
  collect_services [] state = success state
  collect_services (service ∷ services) state = elim (collect_service_state service) [
    | failure e ↦ failure e
    | success actual ↦ collect_services services (insert actual.name actual state)
  ]

  -- GetActualState of an initialised client
  unfoldable pub get_actual_state : Result RetryError ActualState
  unfolding list_services collect_services
  get_actual_state = elim (list_services backoffs (daemon.services stack_name)) [
    | failure e ↦ failure e
    | success services ↦ elim (collect_services services []) [
      | failure e ↦ failure e
      | success state ↦ success (record { services = state })
    ]
  ]
