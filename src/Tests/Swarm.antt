-- ===== src/Tests/Swarm.antt =====
-- Listings and retries against a concrete daemon.
use swarm_sentinel.Base.{
  take, ◌+◌, ℕ, pos, leb, Text, text, text_eq, nat_eq, int_eq, has_prefix, List, [], ◌∷◌, none,
  some, true, false, ◌&&◌, ◌≤◌, Bool-cases, inl, inr, Result, success, failure, ◌==◌, ==_iff, ◌≡◌,
  refl, arith, of_bits, ◌+ᵢ◌, trim_prefix, if◌then◌else◌,
}
use swarm_sentinel.Base.Sort.{sort_texts, text_le}
use swarm_sentinel.Base.Dict.{lookup, insert}
use swarm_sentinel.Swarm.Types.{ActualService}
use swarm_sentinel.Swarm.Docker.{DockerService, DockerError, Task}
use swarm_sentinel.Swarm.Service.{
  normalize_service_name, status_tasks, service_mode_and_replicas, add_name, add_names, add_task,
  add_tasks, summarize_tasks,
}
use swarm_sentinel.Swarm.Retry.{
  is_retryable_docker_error, RetryError, Attempts, backoff_at, retry_from, with_retry,
}
use swarm_sentinel.Swarm.RetryBounds.{RetriesThrough, with_retry-answer}
use swarm_sentinel.Swarm.RetrySteps.{EndsAt}
use swarm_sentinel.Swarm.RetryEnds.{three_waits, in_force, with_retry_lem}
use swarm_sentinel.Swarm.Pagination.{
  append_unique, collect_pages, paginate_by_id_prefix_depth, paginate_by_id_prefix,
}
use swarm_sentinel.Swarm.Pages.{lists, IsUnique}
use swarm_sentinel.Swarm.Paging.{ListsBy, HasDockerIds, paginate_by_id_prefix_lem}
use swarm_sentinel.Swarm.Client.{
  Queries, Daemon, list_pages, list_whole, list_services, list_tasks, collect_service_state,
  collect_services, get_actual_state,
}
use swarm_sentinel.Swarm.Inventory.{
  page_of, IsComplete, list_tasks_lem, last_named, Describes, get_actual_state-services,
}

-- A connection that is refused, and a call that is forbidden.
abbrev refused : DockerError
refused = record {
  is_canceled = false;
  is_unauthorized = false;
  is_forbidden = false;
  is_deadline_exceeded = false;
  is_temporary_net = true;
  message = text "dial: connection refused";
}

abbrev forbidden : DockerError
forbidden = record refused { is_forbidden = true }

-- Two attempts are refused, then the answer comes.
abbrev flaky {ℓ} : {A : Type ℓ} → A → Attempts A
flaky a = record {
  is_done = λ i. false;
  call = λ i. if leb i 2 then failure refused else success a;
  is_done_waiting = λ i. false;
}

-- Nothing is answered.
abbrev down {ℓ} : {A : Type ℓ} → Attempts A
down = record { is_done = λ i. false; call = λ i. failure refused; is_done_waiting = λ i. false }

unfoldable pub swarm_program : Unit {0}
unfolding text_eq int_eq nat_eq lookup insert has_prefix trim_prefix text_le sort_texts of_bits ◌+ᵢ◌
    is_retryable_docker_error backoff_at retry_from with_retry append_unique collect_pages
    paginate_by_id_prefix_depth paginate_by_id_prefix list_pages list_whole list_services list_tasks
    normalize_service_name status_tasks service_mode_and_replicas add_name add_names add_task
    add_tasks summarize_tasks collect_service_state collect_services get_actual_state
swarm_program = tt

with_retry_lem_example :
    (k : ℕ) × (last : ℕ) × (k + 1 ≡ last)
    × (last ≤ 4)
    × RetriesThrough (down {A = ℕ}) 1 k
    × EndsAt down (λ j. take j (three_waits (in_force []))) k last (with_retry {A = ℕ} down [])
with_retry_lem_example = with_retry_lem down []

-- Where nothing is answered four calls are made.
four_calls : (with_retry {A = ℕ} down []).calls ≡ 4
unfolding swarm_program
four_calls = refl

abbrev seven : ℕ
seven = 7

flaky-RetriesThrough {ℓ} : {A : Type ℓ} (a : A) → RetriesThrough (flaky a) 1 2
unfolding is_retryable_docker_error
flaky-RetriesThrough a =
    (refl, (refused, refl, refl), refl, (refl, (refused, refl, refl), refl, tt))

-- A call that is forbidden is not repeated; waits follow the list and keep to its last entry.
forbidden_once :
    (with_retry {A = ℕ} (record (down {A = ℕ}) { call = λ i. failure forbidden }) []).calls ≡ 1
unfolding swarm_program
forbidden_once = refl

waits_in_order : (with_retry {A = ℕ} down (5 ∷ 9 ∷ [])).waits ≡ 5 ∷ 9 ∷ 9 ∷ []
unfolding swarm_program
waits_in_order = refl

-- Two tasks, listed by prefix, each query answered at the third attempt.
abbrev two_tasks : List Task
two_tasks =
    record { id = text "4k"; state = text "running"; container_spec = none }
    ∷ record { id = text "z9"; state = text "failed"; container_spec = none }
    ∷ []

abbrev with_prefix : Text → List Task → List Task
with_prefix p [] = []
with_prefix p (task ∷ tasks) =
    if has_prefix task.id p then task ∷ with_prefix p tasks else with_prefix p tasks

abbrev answers : Text → Result RetryError (List Task)
answers p = success (with_prefix p two_tasks)

lists-with_prefix :
    (p i : Text) (l : List Task)
    → lists (λ task. task.id) (with_prefix p l) i ≡ (has_prefix i p && lists (λ task. task.id) l i)
lists-with_prefix p i [] = ground arith
lists-with_prefix p i (task ∷ l) = ground (arith, lists-with_prefix p i l)

answers-ListsBy : (p : Text) → ListsBy (λ task. task.id) two_tasks answers p
answers-ListsBy p = (with_prefix p two_tasks, refl, λ i. lists-with_prefix p i two_tasks)

two_tasks-HasDockerIds : HasDockerIds (λ task. task.id) two_tasks
unfolding nat_eq
two_tasks-HasDockerIds i h = elim (Bool-cases (i == text "4k")) [
  | inl same ↦ rw ((==_iff i (text "4k")).0 same) (omega arith, (refl, (refl, tt)))
  | inr other ↦
      let same : (i == text "z9") ≡ true = ground arith in
      rw ((==_iff i (text "z9")).0 same) (omega arith, (refl, (refl, tt)))
]

paginate_by_id_prefix_lem_example :
    (r : List Task) × (paginate_by_id_prefix (λ task. task.id) answers ≡ success r)
    × IsUnique (λ task. task.id) r
    × ((i : Text) → lists (λ task. task.id) r i ≡ lists (λ task. task.id) two_tasks i)
paginate_by_id_prefix_lem_example =
    paginate_by_id_prefix_lem (λ task. task.id) two_tasks answers two_tasks-HasDockerIds
      answers-ListsBy

-- The whole listing fails, so that the tasks come by prefix.
abbrev queries : Queries (List Task)
queries = record { whole = down; by_prefix = λ p. flaky (with_prefix p two_tasks) }

page_of-flaky : (p : Text) → page_of [] queries p ≡ success (with_prefix p two_tasks)
page_of-flaky p =
    (with_retry-answer (flaky (with_prefix p two_tasks)) [] 2 (omega arith)
      (flaky-RetriesThrough (with_prefix p two_tasks)) refl refl).1

down_fails : (l : List Task) → (with_retry (queries.whole) []).result ≡ success l → ⊥
unfolding swarm_program
down_fails l h = cc

list_tasks_lem_example :
    (r : List Task) × (list_tasks [] queries (pos 2) ≡ success r)
    × IsComplete (λ task. task.id) two_tasks r
list_tasks_lem_example =
    list_tasks_lem [] two_tasks queries (pos 2) two_tasks-HasDockerIds
      (λ p. (with_prefix p two_tasks, page_of-flaky p, λ i. lists-with_prefix p i two_tasks))
      (λ l found short. absurd (down_fails l found))

-- A stack of one service, whose tasks are these.
abbrev api_service : DockerService
api_service = record {
  id = text "s1";
  name = text "shop_api";
  mode = record {
    replicated = some (some 2);
    global = false;
    replicated_job = false;
    global_job = false;
  };
  image = some (text "api:1");
  update_state = none;
  desired_tasks = some 2;
}

abbrev daemon : Daemon
daemon = record {
  services = λ stack. record { whole = flaky (api_service ∷ []); by_prefix = λ p. down };
  tasks = λ id. queries;
}

abbrev shop : Text
shop = text "shop"

abbrev api_state : ActualService
api_state = record {
  name = text "api";
  image = text "api:1";
  mode = text "replicated";
  desired_replicas = pos 2;
  running_replicas = pos 1;
  configs = [];
  secrets = [];
  update_state = [];
}

shop_state :
    get_actual_state daemon [] shop ≡ success (record { services = (text "api", api_state) ∷ [] })
unfolding swarm_program
shop_state = refl

get_actual_state-services_example :
    (services : List DockerService) × (list_services [] (daemon.services shop) ≡ success services)
    × ((n : Text)
        → Describes daemon [] shop
            ((text "api", api_state) ∷ [])
            n
            (last_named daemon [] shop n services))
get_actual_state-services_example =
    get_actual_state-services daemon [] shop (record { services = (text "api", api_state) ∷ [] })
      shop_state
