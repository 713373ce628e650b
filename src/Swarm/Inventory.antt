-- ===== src/Swarm/Inventory.antt =====
-- The actual state read off a daemon: listServices, listTasks and GetActualState of
-- internal/swarm/docker_client.go.
use swarm_sentinel.Base.{
  ℕ, leb, ◌≤◌, length, ℤ, pos, leb_ℤ, Text, text_eq, List, [], ◌∷◌, Option, none, some, true, false,
  Result, success, Result-cases, Bool-cases, inl, inr, ◌==◌, ◌≡◌, ◌∙◌, arith, if◌then◌else◌,
}
use swarm_sentinel.Base.Dict.{Dict, lookup, insert, lookup-insert}
use swarm_sentinel.Swarm.Types.{ActualService, ActualState}
use swarm_sentinel.Swarm.Docker.{DockerService, Task}
use swarm_sentinel.Swarm.Service.{normalize_service_name, service_mode_and_replicas}
use swarm_sentinel.Swarm.Retry.{RetryError, with_retry}
use swarm_sentinel.Swarm.Pagination.{max_list_page_size}
use swarm_sentinel.Swarm.Pages.{lists}
use swarm_sentinel.Swarm.Paging.{ListsBy, HasDockerIds, paginate_by_id_prefix_lem}
use swarm_sentinel.Swarm.Client.{
  Queries, Daemon, list_pages, list_whole, list_services, list_tasks, collect_service_state,
  collect_services, get_actual_state,
}

-- The answer to a query by prefix, after retries.
abbrev pub page_of {ℓ} :
    {A : Type ℓ} → List ℕ → Queries (List A) → Text → Result RetryError (List A)
page_of backoffs queries prefix = (with_retry (queries.by_prefix prefix) backoffs).result

-- The list holds the IDs of all the items and no other.
abbrev pub IsComplete {ℓ} : {A : Type ℓ} → (A → Text) → List A → List A → Type 0
IsComplete id_of all l = (i : Text) → lists id_of l i ≡ lists id_of all i

module _ {ℓ} {A : Type ℓ} (id_of : A → Text) (backoffs : List ℕ) (all : List A)
    (queries : Queries (List A)) where
  list_pages_lem :
      HasDockerIds id_of all
      → ((p : Text) → ListsBy id_of all (page_of backoffs queries) p)
      → (r : List A) × (list_pages id_of backoffs queries ≡ success r) × IsComplete id_of all r
  unfolding list_pages
  list_pages_lem ids by =
      let (r, e, u, c) = paginate_by_id_prefix_lem id_of all (page_of backoffs queries) ids by in
      (r, e, c)

  list_whole_lem :
      HasDockerIds id_of all
      → ((p : Text) → ListsBy id_of all (page_of backoffs queries) p)
      → ((l : List A)
          → (with_retry queries.whole backoffs).result ≡ success l
          → length l ≤ max_list_page_size
          → IsComplete id_of all l)
      → (r : List A) × (list_whole id_of backoffs queries ≡ success r) × IsComplete id_of all r
  unfolding list_whole
  list_whole_lem ids by whole =
      let (r, e, c) = list_pages_lem ids by in
      elim (Result-cases ((with_retry queries.whole backoffs).result)) [
        | inl (l, found) ↦ elim (Bool-cases (leb (length l) max_list_page_size)) [
          | inl fits ↦ (l, ground (arith, e), whole l found (ground arith))
          | inr long ↦ (r, ground (arith, e), c)
        ]
        | inr (x, found) ↦ (r, ground (arith, e), c)
      ]

-- The tasks are listed completely, whatever their expected number and whether the whole listing
-- fails or is too long: if after its retries every query by a prefix answers with the tasks of that
-- prefix, their IDs are of the characters tried and have two of them at least, and a whole listing
-- of up to 1000 tasks that succeeds is complete.
pub list_tasks_lem :
    (backoffs : List ℕ) (all : List Task) (queries : Queries (List Task)) (expected : ℤ)
    → HasDockerIds (λ task. task.id) all
    → ((p : Text) → ListsBy (λ task. task.id) all (page_of backoffs queries) p)
    → ((l : List Task)
        → (with_retry queries.whole backoffs).result ≡ success l
        → length l ≤ max_list_page_size
        → IsComplete (λ task. task.id) all l)
    → (r : List Task) × (list_tasks backoffs queries expected ≡ success r)
      × IsComplete (λ task. task.id) all r
unfolding list_tasks
list_tasks_lem backoffs all queries expected ids by whole =
    elim (Bool-cases (leb_ℤ expected (pos max_list_page_size))) [
      | inl few ↦
          let (r, e, c) = list_whole_lem (λ task. task.id) backoffs all queries ids by whole in
          (r, ground (arith, e), c)
      | inr many ↦
          let (r, e, c) = list_pages_lem (λ task. task.id) backoffs all queries ids by in
          (r, ground (arith, e), c)
    ]

module _ (daemon : Daemon) (backoffs : List ℕ) (stack_name : Text) where
  -- The last of the services that has this name within the stack.
  abbrev pub last_named : Text → List DockerService → Option DockerService
  last_named n [] = none
  last_named n (s ∷ services) = elim (last_named n services) [
    | some t ↦ some t
    | none ↦ if n == normalize_service_name s.name stack_name then some s else none
  ]

  -- The state under this name is that of the service, if there is one.
  abbrev pub Describes : Dict Text ActualService → Text → Option DockerService → Type 0
  Describes state n none = lookup n state ≡ none
  Describes state n (some s) =
      (a : ActualService) × (collect_service_state daemon backoffs stack_name s ≡ success a)
      × (lookup n state ≡ some a)

  collect_service_state-name :
      (s : DockerService) (a : ActualService)
      → collect_service_state daemon backoffs stack_name s ≡ success a
      → a.name ≡ normalize_service_name s.name stack_name
  unfolding collect_service_state
  collect_service_state-name s a h =
      elim (Result-cases
        (list_tasks backoffs (daemon.tasks s.id) (service_mode_and_replicas s).1)) [
          | inl (tasks, found) ↦ ground arith
          | inr (e, found) ↦ ground arith
        ]

  -- After the loop the state under a name is that of the last service with the name, or what it
  -- was before.
  abbrev Extends :
      Dict Text ActualService → Dict Text ActualService → Text → Option DockerService → Type 0
  Extends before state n none = lookup n state ≡ lookup n before
  Extends before state n (some s) = Describes state n (some s)

  Extends-insert :
      (s : DockerService) (a : ActualService) (before state : Dict Text ActualService) (n : Text)
      (o : Option DockerService)
      → collect_service_state daemon backoffs stack_name s ≡ success a
      → Extends (insert a.name a before) state n o
      → Extends before state n (elim o [
        | some t ↦ some t
        | none ↦ if n == normalize_service_name s.name stack_name then some s else none
      ])
  Extends-insert s a before state n (some t) found rest = rest
  Extends-insert s a before state n none found rest =
      let named = collect_service_state-name s a found in
      let stands = rest ∙ lookup-insert n a.name a before in
      elim (Bool-cases (n == normalize_service_name s.name stack_name)) [
        | inl same ↦
            let same' : (n == a.name) ≡ true = rw named same in
            rw same (a, found, stands ∙ ground (arith, same'))
        | inr other ↦
            let other' : (n == a.name) ≡ false = rw named other in
            rw other (stands ∙ ground (arith, other'))
      ]

  collect_services_lem :
      (services : List DockerService) (before state : Dict Text ActualService)
      → collect_services daemon backoffs stack_name services before ≡ success state
      → (n : Text) → Extends before state n (last_named n services)
  unfolding collect_services
  collect_services_lem [] before state h n = ground arith
  collect_services_lem (s ∷ services) before state h n =
      elim (Result-cases (collect_service_state daemon backoffs stack_name s)) [
        | inl (a, found) ↦
            Extends-insert s a before state n (last_named n services) found
              (collect_services_lem services (insert a.name a before) state (ground (arith, h)) n)
        | inr (e, found) ↦ ground arith
      ]

  Extends-Describes :
      (state : Dict Text ActualService) (n : Text) (o : Option DockerService)
      → Extends [] state n o
      → Describes state n o
  unfolding lookup
  Extends-Describes state n none h = h
  Extends-Describes state n (some s) h = h

  -- A state that is returned describes the services listed: under each name stands what was
  -- collected of the last service that has the name within the stack, and nothing else stands in it.
  pub get_actual_state-services :
      (state : ActualState)
      → get_actual_state daemon backoffs stack_name ≡ success state
      → (services : List DockerService) × (list_services backoffs (daemon.services stack_name)
          ≡ success services)
        × ((n : Text) → Describes state.services n (last_named n services))
  unfolding get_actual_state
  get_actual_state-services state h =
      elim (Result-cases (list_services backoffs (daemon.services stack_name))) [
        | inl (services, found) ↦
            elim (Result-cases (collect_services daemon backoffs stack_name services [])) [
              | inl (collected, e) ↦
                  let same : state.services ≡ collected = ground arith in
                  (
                    services,
                    found,
                    λ n. rw same (
                        Extends-Describes collected n (last_named n services)
                          (collect_services_lem services [] collected e n)),
                  )
              | inr (x, e) ↦ ground arith
            ]
        | inr (x, found) ↦ ground arith
      ]
