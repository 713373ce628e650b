-- ===== src/Tests/Runner.antt =====
-- Alerts over several cycles, and cycles with their error paths.
use swarm_sentinel.Base.{
  pos, Text, text, text_eq, int_eq, [], ◌∷◌, Option, none, some, true, false, ◌≡◌, refl, arith,
  ◌+ᵢ◌, ◌-ᵢ◌,
}
use swarm_sentinel.Base.Dict.{lookup, insert, NodupKeys}
use swarm_sentinel.Base.Sort.Find.{IsDistinct}
use swarm_sentinel.Base.Sort.{text_le, sort_by, IsSorted}
use swarm_sentinel.Base.Sort.Find.{find_by}
use swarm_sentinel.Health.Types.{ServiceStatus, ok, failed, ServiceHealth, StackHealth, status_eq}
use swarm_sentinel.State.Types.{StackSnapshot}
use swarm_sentinel.Transition.Types.{zero_service}
use swarm_sentinel.Transition.Detect.{
  build_replica_change, build_image_change, prev_services, is_first_run, previous_status,
  is_skipped, service_transition, collect_transitions, detect_service_transitions,
}
use swarm_sentinel.Transition.Laws.{transition_of, report_of_known, detect_service_transitions_lem}
use swarm_sentinel.Runner.Stabilize.{
  effective_cycles, consecutive, last_notified, should_notify, observed, updated,
  stabilize_services, stabilize_transitions,
}
use swarm_sentinel.Runner.Alerts.{stabilize_transitions-kept, stabilize_transitions-alerts}
use swarm_sentinel.Runner.History.{alerts_for, Shows, snapshot_of, new_service_silent}
use swarm_sentinel.Runner.Streak.{change_alerts_once, flap_silent}

-- Everything that a run of the alerts computes with.
unfoldable pub program : Unit {0}
unfolding text_eq int_eq status_eq lookup insert text_le ◌+ᵢ◌ ◌-ᵢ◌ build_replica_change
    build_image_change prev_services is_first_run previous_status is_skipped service_transition
    collect_transitions detect_service_transitions effective_cycles consecutive last_notified
    should_notify observed updated stabilize_services stabilize_transitions sort_by find_by
program = tt

abbrev api : Text
api = text "api"

abbrev db : Text
db = text "db"

abbrev with_status : ServiceStatus → ServiceHealth
with_status s = record zero_service { name = api; status = s }

-- The api with this status, beside a database that is well.
abbrev health : ServiceStatus → StackHealth
health s = record { status = s; services = (api, with_status s) ∷ (db, with_status ok) ∷ [] }

-- A snapshot that knows both, and one that knows the database alone.
abbrev both : Option StackSnapshot
both = some (snapshot_of (health ok).services)

abbrev db_alone : Option StackSnapshot
db_alone = some (snapshot_of ((db, with_status ok) ∷ []))

-- On the first run a service that is not well is reported at once.
first_run_alerts :
    alerts_for (pos 2) api none (health failed ∷ health failed ∷ []) ≡ true ∷ false ∷ []
unfolding alerts_for program
first_run_alerts = refl

health-NodupKeys : (s : ServiceStatus) → NodupKeys (health s).services
unfolding lookup text_eq
health-NodupKeys s = (refl, (refl, tt))

health-Shows : (s : ServiceStatus) → Shows api s (health s)
unfolding lookup text_eq
health-Shows s = (health-NodupKeys s, (with_status s, refl, refl))

detect_service_transitions_lem_example :
    (transition_of api (detect_service_transitions both (health failed))
      ≡ some (report_of_known api (with_status ok) (with_status failed)))
    × IsSorted (λ t. t.name) (detect_service_transitions both (health failed))
    × IsDistinct (λ t. t.name) (detect_service_transitions both (health failed))
unfolding program
detect_service_transitions_lem_example =
    detect_service_transitions_lem both (health failed) (health-NodupKeys failed) api

stabilize_transitions-kept_example :
    lookup api (stabilize_transitions (pos 2) both (health failed)).0
    ≡ some (record (with_status failed) { consecutive_cycles = pos 1; last_notified_status = ok })
unfolding program
stabilize_transitions-kept_example =
    stabilize_transitions-kept (pos 2) both (health failed) (health-NodupKeys failed) api

stabilize_transitions-alerts_example :
    (transition_of api (stabilize_transitions (pos 2) none (health failed)).1
      ≡ some (service_transition api none (observed none (with_status failed))))
    × IsSorted (λ t. t.name) (stabilize_transitions (pos 2) none (health failed)).1
unfolding program
stabilize_transitions-alerts_example =
    stabilize_transitions-alerts (pos 2) none (health failed) (health-NodupKeys failed) api

new_service_silent_example :
    alerts_for (pos 2) api db_alone (health failed ∷ health failed ∷ health failed ∷ [])
    ≡ false ∷ false ∷ false ∷ []
unfolding program
new_service_silent_example =
    new_service_silent (pos 2) api failed db_alone
      (health failed ∷ health failed ∷ health failed ∷ []) refl refl refl
      (health-Shows failed, (health-Shows failed, (health-Shows failed, tt)))

change_alerts_once_example :
    alerts_for (pos 2) api both (health failed ∷ health failed ∷ health failed ∷ [])
    ≡ false ∷ true ∷ false ∷ []
unfolding program
change_alerts_once_example =
    change_alerts_once 2 (omega arith) api ok failed (cc) (cc) 1 both (with_status ok)
      (health failed ∷ health failed ∷ health failed ∷ []) 1 refl refl refl (cc) refl refl
      (health-Shows failed, (health-Shows failed, (health-Shows failed, tt)))

flap_silent_example :
    alerts_for (pos 2) api both (health failed ∷ health ok ∷ []) ≡ false ∷ false ∷ []
unfolding program
flap_silent_example =
    flap_silent 2 (omega arith) api ok failed (cc) (cc) both (with_status ok) (health failed) []
      (health ok ∷ []) refl refl refl (cc) (omega arith) (health-Shows failed, tt)
      (health-Shows ok, tt)
