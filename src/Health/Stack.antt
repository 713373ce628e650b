-- ===== src/Health/Stack.antt =====
-- EvaluateStackHealth against a description by service name, whatever the order of the loops.
use mathlib.Core.Option
use swarm_sentinel.Base.{
  ℕ, Text, text_eq, [], ◌∷◌, Option, none, some, Option-cases, Bool-cases, Bool, inl, inr, All, ◌≡◌,
  ◌∙◌, refl, max, arith, if◌then◌else◌,
}
use swarm_sentinel.Base.Dict.{Dict, lookup, insert, NodupKeys, lookup-insert}
use swarm_sentinel.Compose.Types.{DesiredService, DesiredState}
use swarm_sentinel.Swarm.Types.{ActualService, ActualState}
use swarm_sentinel.Health.Types.{
  ServiceStatus, ok, ServiceHealth, StackHealth, severity, worsen_status,
}
use swarm_sentinel.Health.Evaluate.{
  surplus_service, surplus_entry, record_health, desired_health, evaluate_desired, evaluate_surplus,
  actual_services, evaluate_stack_health,
}

-- What the result holds under a name: the verdict on a desired service, or, for a named stack, the
-- report of a service that nobody asked for.
abbrev pub expected_health :
    Dict Text DesiredService → Dict Text ActualService → Bool → Text → Option ServiceHealth
expected_health desired actual scoped n = elim (lookup n desired) [
  | some d ↦ some (desired_health actual n d)
  | none ↦ if scoped then Option.map (surplus_service n) (lookup n actual) else none
]

-- The worst severity in a map of services.
abbrev pub worst : Dict Text ServiceHealth → ℕ
worst [] = 0
worst ((n, h) ∷ m) = max (severity h.status) (worst m)

severity-worsen_status :
    (s t : ServiceStatus) → severity (worsen_status s t) ≡ max (severity s) (severity t)
severity-worsen_status s t = ground arith

worst-insert :
    (n : Text) (h : ServiceHealth) (m : Dict Text ServiceHealth)
    → lookup n m ≡ none
    → worst (insert n h m) ≡ max (severity h.status) (worst m)
unfolding lookup insert
worst-insert n h [] e = refl
worst-insert n h ((k, g) ∷ m) e = ground (arith, worst-insert n h m)

lookup-evaluate_desired :
    (actual : Dict Text ActualService) (desired : Dict Text DesiredService) (r : StackHealth)
    (n : Text)
    → NodupKeys desired
    → lookup n (evaluate_desired actual desired r).services ≡ elim (lookup n desired) [
      | some d ↦ some (desired_health actual n d)
      | none ↦ lookup n r.services
    ]
unfolding evaluate_desired lookup record_health
lookup-evaluate_desired actual [] r n u = refl
lookup-evaluate_desired actual ((k, d) ∷ desired) r n u =
    lookup-evaluate_desired actual desired (record_health k (desired_health actual k d) r) n u.1
    ∙ ground (arith, lookup-insert n k (desired_health actual k d) r.services)

lookup-evaluate_surplus :
    (desired : Dict Text DesiredService) (actual : Dict Text ActualService) (r : StackHealth)
    (n : Text)
    → NodupKeys actual
    → lookup n (evaluate_surplus desired actual r).services ≡ elim (lookup n desired) [
      | some _ ↦ lookup n r.services
      | none ↦ elim (lookup n actual) [
        | some a ↦ some (surplus_service n a)
        | none ↦ lookup n r.services
      ]
    ]
unfolding evaluate_surplus lookup record_health
lookup-evaluate_surplus desired [] r n u = ground arith
lookup-evaluate_surplus desired ((k, a) ∷ actual) r n u =
    lookup-evaluate_surplus desired actual (surplus_entry desired k a r) n u.1
    ∙ ground (arith, lookup-insert n k (surplus_service k a) r.services)

-- Keeping the status at the worst severity of the entries.
abbrev IsWorst : StackHealth → Type 0
IsWorst r = severity r.status ≡ worst r.services

record_health-IsWorst :
    (n : Text) (h : ServiceHealth) (r : StackHealth)
    → lookup n r.services ≡ none
    → IsWorst r
    → IsWorst (record_health n h r)
unfolding record_health
record_health-IsWorst n h r fresh w =
    severity-worsen_status r.status h.status ∙ omega (arith, worst-insert n h r.services fresh)

-- None of the names of the map has an entry yet.
abbrev IsFresh {ℓ} : {V : Type ℓ} → Dict Text V → StackHealth → Type 0
IsFresh m r = All (λ e. lookup e.0 r.services ≡ none) m

record_health-IsFresh {ℓ} :
    {V : Type ℓ} (n : Text) (h : ServiceHealth) (r : StackHealth) (m : Dict Text V)
    → lookup n m ≡ none
    → IsFresh m r
    → IsFresh m (record_health n h r)
unfolding lookup record_health
record_health-IsFresh n h r [] e f = tt
record_health-IsFresh n h r ((k, v) ∷ m) e f = (
  ground (arith, lookup-insert k n h r.services),
  record_health-IsFresh n h r m (ground arith) f.1,
)

evaluate_desired-IsWorst :
    (actual : Dict Text ActualService) (desired : Dict Text DesiredService) (r : StackHealth)
    → NodupKeys desired
    → IsFresh desired r
    → IsWorst r
    → IsWorst (evaluate_desired actual desired r)
unfolding evaluate_desired
evaluate_desired-IsWorst actual [] r u f w = w
evaluate_desired-IsWorst actual ((k, d) ∷ desired) r u f w =
    evaluate_desired-IsWorst actual desired _ u.1
      (record_health-IsFresh k (desired_health actual k d) r desired u.0 f.1)
      (record_health-IsWorst k (desired_health actual k d) r f.0 w)

-- No name of the map that is not desired has an entry yet.
abbrev IsFreshBut : Dict Text DesiredService → Dict Text ActualService → StackHealth → Type 0
IsFreshBut desired m r = All (λ e. lookup e.0 desired ≡ none → lookup e.0 r.services ≡ none) m

surplus_entry-IsFreshBut :
    (desired : Dict Text DesiredService) (n : Text) (a : ActualService) (r : StackHealth)
    (m : Dict Text ActualService)
    → lookup n m ≡ none
    → IsFreshBut desired m r
    → IsFreshBut desired m (surplus_entry desired n a r)
unfolding lookup surplus_entry record_health
surplus_entry-IsFreshBut desired n a r [] e f = tt
surplus_entry-IsFreshBut desired n a r ((k, v) ∷ m) e f = (
  λ absent. ground (arith, f.0 absent, lookup-insert k n (surplus_service n a) r.services),
  surplus_entry-IsFreshBut desired n a r m (ground arith) f.1,
)

surplus_entry-IsWorst :
    (desired : Dict Text DesiredService) (n : Text) (a : ActualService) (r : StackHealth)
    → (lookup n desired ≡ none → lookup n r.services ≡ none)
    → IsWorst r
    → IsWorst (surplus_entry desired n a r)
unfolding surplus_entry
surplus_entry-IsWorst desired n a r fresh w = elim (Option-cases (lookup n desired)) [
  | inl absent ↦
      rw (absent, surplus_entry) (record_health-IsWorst n (surplus_service n a) r (fresh absent) w)
  | inr (d, found) ↦ rw (found, surplus_entry) w
]

evaluate_surplus-IsWorst :
    (desired : Dict Text DesiredService) (actual : Dict Text ActualService) (r : StackHealth)
    → NodupKeys actual
    → IsFreshBut desired actual r
    → IsWorst r
    → IsWorst (evaluate_surplus desired actual r)
unfolding evaluate_surplus
evaluate_surplus-IsWorst desired [] r u f w = w
evaluate_surplus-IsWorst desired ((k, a) ∷ actual) r u f w =
    evaluate_surplus-IsWorst desired actual _ u.1
      (surplus_entry-IsFreshBut desired k a r actual u.0 f.1)
      (surplus_entry-IsWorst desired k a r f.0 w)

abbrev no_services : StackHealth
no_services = record { status = ok; services = [] }

no_services-IsFresh {ℓ} : {V : Type ℓ} (m : Dict Text V) → IsFresh m no_services
unfolding lookup
no_services-IsFresh [] = tt
no_services-IsFresh (e ∷ m) = (refl, no_services-IsFresh m)

evaluate_desired-IsFreshBut :
    (services : Dict Text ActualService) (desired : Dict Text DesiredService)
    (actual : Dict Text ActualService)
    → NodupKeys desired
    → IsFreshBut desired actual (evaluate_desired services desired no_services)
unfolding lookup
evaluate_desired-IsFreshBut services desired [] u = tt
evaluate_desired-IsFreshBut services desired ((k, a) ∷ actual) u = (
  λ absent. ground (arith, lookup-evaluate_desired services desired no_services k u),
  evaluate_desired-IsFreshBut services desired actual u,
)

module _ (desired : DesiredState) (actual : Option ActualState) (scoped : Bool)
    (desired_nodup : NodupKeys desired.services)
    (actual_nodup : NodupKeys (actual_services actual)) where
  -- For maps in any order, the result holds under each name: for a desired service, its verdict
  -- (FAILED as missing if it is not there); for any other, an entry only if the stack is named and
  -- the service runs, reported as a service too many.
  pub evaluate_stack_health-services :
      (n : Text)
      → lookup n (evaluate_stack_health desired actual scoped).services
        ≡ expected_health desired.services (actual_services actual) scoped n
  unfolding evaluate_stack_health lookup
  evaluate_stack_health-services n =
      let services = actual_services actual in
      ground (
        arith,
        lookup-evaluate_desired services desired.services no_services n desired_nodup,
        lookup-evaluate_surplus desired.services services
            (evaluate_desired services desired.services no_services) n actual_nodup,
      )

  -- The status of the stack is as severe as the worst of the services in the result, and OK if
  -- there is none.
  pub evaluate_stack_health-status :
      severity (evaluate_stack_health desired actual scoped).status
      ≡ worst (evaluate_stack_health desired actual scoped).services
  unfolding evaluate_stack_health
  evaluate_stack_health-status =
      let services = actual_services actual in
      let first = evaluate_desired services desired.services no_services in
      let first_IsWorst : IsWorst first =
        evaluate_desired-IsWorst services desired.services no_services desired_nodup
          (no_services-IsFresh desired.services) refl in
      elim (Bool-cases scoped) [
        | inl named ↦ rw named (
            evaluate_surplus-IsWorst desired.services services first actual_nodup
              (evaluate_desired-IsFreshBut services desired.services services desired_nodup)
              first_IsWorst)
        | inr unnamed ↦ rw unnamed first_IsWorst
      ]
