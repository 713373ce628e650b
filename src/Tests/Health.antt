-- ===== src/Tests/Health.antt =====
-- The cases of internal/health/evaluate_test.go, and the theorems of Health and Transition.
use swarm_sentinel.Base.{
  ℤ, pos, Text, text, text_eq, int_eq, List, [], ◌∷◌, some, true, false, ◌≡◌, refl, decimal,
  has_prefix, index_of,
}
use swarm_sentinel.Base.Dict.{lookup, insert, NodupKeys}
use swarm_sentinel.Base.Sort.{text_le, sort_texts}
use swarm_sentinel.Compose.Types.{DesiredService, DesiredState}
use swarm_sentinel.Swarm.Types.{ActualService, ActualState}
use swarm_sentinel.Swarm.Image.{normalize_image}
use swarm_sentinel.Health.Types.{ok, failed, status_eq, severity}
use swarm_sentinel.Health.Evaluate.{
  names_absent, diff_names, add_drift, apply_drift, drift_status, check_image, check_replicas,
  update_in_progress, wanted_replicas, evaluate_service, missing_service, surplus_service,
  record_health, desired_health, surplus_entry, evaluate_desired, evaluate_surplus, actual_services,
  evaluate_stack_health,
}
use swarm_sentinel.Health.Stack.{
  worst, evaluate_stack_health-services, evaluate_stack_health-status,
}

-- Everything that a run of the evaluation computes with.
unfoldable pub program : Unit {0}
unfolding text_eq int_eq status_eq decimal has_prefix index_of lookup insert text_le sort_texts
    normalize_image names_absent diff_names add_drift apply_drift drift_status check_image
    check_replicas update_in_progress wanted_replicas evaluate_service missing_service
    surplus_service record_health desired_health surplus_entry evaluate_desired evaluate_surplus
    actual_services evaluate_stack_health
program = tt

abbrev api : Text
api = text "api"

abbrev wanted : ℤ → DesiredService
wanted n = record {
  image = text "app:v1";
  mode = text "replicated";
  replicas = n;
  configs = text "cfg1" ∷ [];
  secrets = text "sec1" ∷ [];
}

abbrev running : ℤ → Text → ActualService
running n state = record {
  name = api;
  image = text "app:v1@sha256:abc";
  mode = text "replicated";
  desired_replicas = pos 3;
  running_replicas = n;
  configs = text "cfg1" ∷ [];
  secrets = text "sec1" ∷ [];
  update_state = state;
}

abbrev desired : DesiredState
desired = record { services = (api, wanted (pos 3)) ∷ (text "db", wanted (pos 1)) ∷ [] }

abbrev actual : ActualState
actual = record { services = (text "tmp", running (pos 1) []) ∷ (api, running (pos 2) []) ∷ [] }

-- More replicas than wanted.
too_many :
    (evaluate_service api (wanted (pos 3)) (running (pos 4) [])).reasons
    ≡ text "replicas running 4/3" ∷ []
unfolding program
too_many = refl

-- An update hides a lower count, but not that nothing runs.
updating :
    ((evaluate_service api (wanted (pos 3)) (running (pos 1) (text "updating"))).status ≡ ok)
    × ((evaluate_service api (wanted (pos 3)) (running (pos 0) (text "rollback_started"))).status
        ≡ failed)
unfolding program
updating = (refl, refl)

-- A missing service fails the stack.
missing_fails : (evaluate_stack_health desired (some actual) true).status ≡ failed
unfolding program
missing_fails = refl

-- A stack without a name ignores what it did not ask for.
unscoped : (evaluate_stack_health (record { services = [] }) (some actual) false).services ≡ []
unfolding program
unscoped = refl

desired-NodupKeys : NodupKeys desired.services
unfolding lookup text_eq
desired-NodupKeys = (refl, (refl, tt))

actual-NodupKeys : NodupKeys (actual_services (some actual))
unfolding lookup text_eq actual_services
actual-NodupKeys = (refl, (refl, tt))

evaluate_stack_health-services_example :
    lookup (text "tmp") (evaluate_stack_health desired (some actual) true).services
    ≡ some (surplus_service (text "tmp") (running (pos 1) []))
unfolding lookup text_eq actual_services
evaluate_stack_health-services_example =
    evaluate_stack_health-services desired (some actual) true desired-NodupKeys actual-NodupKeys
      (text "tmp")

evaluate_stack_health-status_example :
    severity (evaluate_stack_health desired (some actual) true).status
    ≡ worst (evaluate_stack_health desired (some actual) true).services
evaluate_stack_health-status_example =
    evaluate_stack_health-status desired (some actual) true desired-NodupKeys actual-NodupKeys

abbrev names : List Text
names = text "b" ∷ text "a" ∷ []
