-- ===== src/Health/Evaluate.antt =====
-- The comparison of desired and actual state: internal/health/evaluate.go.
use swarm_sentinel.Base.{
  ℤ, pos, Text, text, text_eq, int_eq, List, [], ◌∷◌, ◌++◌, Option, none, some, Bool, ◌||◌, ◌==◌,
  contains, ltb_ℤ, decimal, if◌then◌else◌,
}
use swarm_sentinel.Base.Dict
use swarm_sentinel.Base.Dict.{Dict}
use swarm_sentinel.Base.Sort.{sort_texts}
use swarm_sentinel.Compose.Types.{DesiredService, DesiredState}
use swarm_sentinel.Swarm.Types.{ActualService, ActualState}
use swarm_sentinel.Swarm.Image.{normalize_image}
use swarm_sentinel.Health.Types.{
  ServiceStatus, ok, degraded, failed, unset, DriftKind, missing, extra, extra_service, DriftDetail,
  ServiceHealth, StackHealth, worsen_status,
}

-- The names that are not in the set, in the order of the loop.
unfoldable pub names_absent : List Text → List Text → List Text
names_absent [] set = []
names_absent (name ∷ names) set =
    let rest = names_absent names set in if contains set name then rest else name ∷ rest

-- diffNames: the missing names and the extra ones
unfoldable pub diff_names : List Text → List Text → List Text × List Text
unfolding names_absent sort_texts
diff_names desired actual =
    (sort_texts (names_absent desired actual), sort_texts (names_absent actual desired))

-- One loop of applyDrift, over the names of one kind.
unfoldable pub add_drift :
    DriftKind
    → Text
    → Text
    → List Text
    → List Text × List DriftDetail
    → List Text × List DriftDetail
add_drift kind word resource [] found = found
add_drift kind word resource (name ∷ names) (reasons, drift) = add_drift kind word resource names (
  reasons ++ ((word ++ (text " " ++ (resource ++ (text ": " ++ name)))) ∷ []),
  drift ++ (record { kind = kind; resource = resource; name = name } ∷ []),
)

unfoldable pub apply_drift :
    List Text × List DriftDetail → Text → List Text → List Text → List Text × List DriftDetail
apply_drift found resource desired actual =
    let (absent, surplus) = diff_names desired actual in
    add_drift extra (text "extra") resource surplus
      (add_drift missing (text "missing") resource absent found)

-- The loop over the drift at the end of evaluateService.
unfoldable pub drift_status : List DriftDetail → ServiceStatus → ServiceStatus
drift_status [] status = status
drift_status (d ∷ ds) status = drift_status ds (elim d.kind [
  | missing ↦ worsen_status status failed
  | extra ↦ worsen_status status degraded
  | extra_service ↦ status
])

-- The status and the reasons found so far.
abbrev pub Found : Type 0
Found = ServiceStatus × List Text

unfoldable pub check_image : Text → Text → Found → Found
check_image desired actual (status, reasons) = if desired == actual then (status, reasons) else (
  worsen_status status degraded,
  reasons ++ ((text "image mismatch: want " ++ (desired ++ (text " got " ++ actual))) ∷ []),
)

unfoldable pub update_in_progress : Text → Bool
update_in_progress state = state == text "updating" || state == text "rollback_started"

replicas_running : ℤ → ℤ → Text
unfolding decimal
replicas_running running desired =
    text "replicas running " ++ (decimal running ++ (text "/" ++ decimal desired))

unfoldable pub check_replicas : ℤ → ℤ → Bool → Found → Found
unfolding replicas_running
check_replicas desired running updating (status, reasons) =
    if ltb_ℤ (pos 0) desired
    then (if running == pos 0
        then (
          worsen_status status failed,
          reasons ++ ((text "no running replicas (desired " ++ (decimal desired ++ text ")")) ∷ []),
        )
        else if updating
        then (status, reasons)
        else if ltb_ℤ running desired
        then (worsen_status status degraded, reasons ++ (replicas_running running desired ∷ []))
        else if ltb_ℤ desired running
        then (worsen_status status degraded, reasons ++ (replicas_running running desired ∷ []))
        else (status, reasons))
    else (status, reasons)

unfoldable pub wanted_replicas : DesiredService → ActualService → ℤ
wanted_replicas d a = if d.mode == text "global" then a.desired_replicas else d.replicas

-- evaluateService
unfoldable pub evaluate_service : Text → DesiredService → ActualService → ServiceHealth
evaluate_service name d a =
    let desired_image = normalize_image d.image in
    let actual_image = normalize_image a.image in
    let (status₁, reasons₁) = check_image desired_image actual_image (ok, []) in
    let (status₂, reasons₂) =
      check_replicas (wanted_replicas d a) a.running_replicas (update_in_progress a.update_state)
        (status₁, reasons₁) in
    let (reasons₃, drift) =
      apply_drift (apply_drift (reasons₂, []) (text "config") d.configs a.configs) (text "secret")
        d.secrets a.secrets in
    record {
      name = name;
      status = drift_status drift status₂;
      reasons = reasons₃;
      drift = drift;
      desired_image = desired_image;
      actual_image = actual_image;
      desired_replicas = wanted_replicas d a;
      running_replicas = a.running_replicas;
      consecutive_cycles = pos 0;
      last_notified_status = unset;
    }

unfoldable pub missing_service : Text → DesiredService → ServiceHealth
missing_service name d = record {
  name = name;
  status = failed;
  reasons = text "missing service" ∷ [];
  drift = [];
  desired_image = normalize_image d.image;
  actual_image = [];
  desired_replicas = d.replicas;
  running_replicas = pos 0;
  consecutive_cycles = pos 0;
  last_notified_status = unset;
}

unfoldable pub surplus_service : Text → ActualService → ServiceHealth
surplus_service name a = record {
  name = name;
  status = degraded;
  reasons = text "extra service" ∷ [];
  drift = record { kind = extra_service; resource = text "service"; name = a.name } ∷ [];
  desired_image = [];
  actual_image = normalize_image a.image;
  desired_replicas = a.desired_replicas;
  running_replicas = a.running_replicas;
  consecutive_cycles = pos 0;
  last_notified_status = unset;
}

-- `result.Services[name] = health` and the status that goes with it.
unfoldable pub record_health : Text → ServiceHealth → StackHealth → StackHealth
unfolding Dict.insert
record_health name health result = record {
  status = worsen_status result.status health.status;
  services = Dict.insert name health result.services;
}

-- The health of a desired service.
unfoldable pub desired_health : Dict Text ActualService → Text → DesiredService → ServiceHealth
unfolding missing_service
desired_health actual name d = elim (Dict.lookup name actual) [
  | none ↦ missing_service name d
  | some a ↦ evaluate_service name d a
]

-- The loop over the desired services.
unfoldable pub evaluate_desired :
    Dict Text ActualService → Dict Text DesiredService → StackHealth → StackHealth
unfolding desired_health record_health
evaluate_desired actual [] result = result
evaluate_desired actual ((name, d) ∷ rest) result =
    evaluate_desired actual rest (record_health name (desired_health actual name d) result)

-- The body of the loop over the actual services: a desired one is skipped.
unfoldable pub surplus_entry :
    Dict Text DesiredService → Text → ActualService → StackHealth → StackHealth
unfolding record_health
surplus_entry desired name a result = elim (Dict.lookup name desired) [
  | some _ ↦ result
  | none ↦ record_health name (surplus_service name a) result
]

-- The loop over the actual services, run for a named stack.
unfoldable pub evaluate_surplus :
    Dict Text DesiredService → Dict Text ActualService → StackHealth → StackHealth
unfolding surplus_entry
evaluate_surplus desired [] result = result
evaluate_surplus desired ((name, a) ∷ rest) result =
    evaluate_surplus desired rest (surplus_entry desired name a result)

-- A nil state, and a nil map, count as no service.
unfoldable pub actual_services : Option ActualState → Dict Text ActualService
actual_services none = []
actual_services (some actual) = actual.services

-- EvaluateStackHealth
unfoldable pub evaluate_stack_health : DesiredState → Option ActualState → Bool → StackHealth
evaluate_stack_health desired actual stack_scoped =
    let services = actual_services actual in
    let result =
      evaluate_desired services desired.services (record { status = ok; services = [] }) in
    if stack_scoped then evaluate_surplus desired.services services result else result
