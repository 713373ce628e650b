-- ===== src/Runner/Effects.antt =====
-- What holds of every effect of a cycle: the cycle of internal/runner/runner.go, step by step.
use swarm_sentinel.Base.{
  ℕ, Text, List, [], ◌∷◌, ◌++◌, Option, none, some, Option-cases, All, Bool, true, false, inl, inr,
  arith,
}
use swarm_sentinel.Health.Types.{StackHealth}
use swarm_sentinel.Transition.Types.{ServiceTransition}
use swarm_sentinel.Runner.Types.{
  Settings, Memory, World, Effect, services_total, alerts_total, docker_api_error, notified,
}
use swarm_sentinel.Runner.Cycle.{
  count_alerts, record_metrics, notify_transitions, evaluate_step, collect_actual, refresh_desired,
  default_run_once, cycle_records, run_once,
}

pub All-append {ℓ} :
    {A : Type ℓ} (P : A → Type 0) (xs ys : List A) → All P xs → All P ys → All P (xs ++ ys)
All-append P [] ys h g = g
All-append P (x ∷ xs) ys h g = (h.0, All-append P xs ys h.1 g)

-- The predicate holds of counts and notices.
pub record IsLax (P : Effect → Type 0) : Type 0 where
  pub counts : (stack status : Text) (n : ℕ) → P (services_total stack status n)
  pub alerts : (stack severity : Text) → P (alerts_total stack severity)
  pub api_errors : P docker_api_error
  pub notices : (stack : Text) (ts : List ServiceTransition) → P (notified stack ts)

module _ (P : Effect → Type 0) (lax : IsLax P) where
  count_alerts-All : (stack : Text) (ts : List ServiceTransition) → All P (count_alerts stack ts)
  unfolding count_alerts
  count_alerts-All stack [] = tt
  count_alerts-All stack (t ∷ ts) = (lax.alerts stack _, count_alerts-All stack ts)

  pub record_metrics-All :
      (on : Bool) (stack : Text) (health : StackHealth) (ts : List ServiceTransition)
      → All P (record_metrics on stack health ts)
  unfolding record_metrics
  record_metrics-All false stack health ts = tt
  record_metrics-All true stack health ts = (
    lax.counts stack _ _,
    (lax.counts stack _ _, (lax.counts stack _ _, count_alerts-All stack ts)),
  )

  pub notify_transitions-All :
      (notify : Option (Text → List ServiceTransition → Option Text)) (stack : Text)
      (ts : List ServiceTransition)
      → All P (notify_transitions notify stack ts)
  unfolding notify_transitions
  notify_transitions-All none stack ts = tt
  notify_transitions-All (some notify) stack [] = tt
  notify_transitions-All (some notify) stack (t ∷ ts) = (lax.notices stack (t ∷ ts), tt)

  module _ (settings : Settings) (world : World)
      (evaluated : (memory : Memory) → All P (evaluate_step settings world memory).effects) where
    collect_actual-All : (memory : Memory) → All P (collect_actual settings world memory).effects
    unfolding collect_actual
    collect_actual-All memory = grind (arith, evaluated, lax.api_errors)

    pub default_run_once-All :
        (memory : Memory) → All P (default_run_once settings world memory).effects
    unfolding default_run_once
    default_run_once-All memory =
        ground (arith, collect_actual-All (refresh_desired world memory).0)

    pub run_once-All :
        (memory : Memory)
        → All P (cycle_records settings)
        → All P (run_once settings world memory).effects
    unfolding run_once
    run_once-All memory recorded =
        let c = default_run_once settings world memory in
        elim (Option-cases c.error) [
          | inr (e, failed) ↦ rw (failed, run_once) (default_run_once-All memory)
          | inl fine ↦
              rw (fine, run_once)
                (All-append P c.effects (cycle_records settings) (default_run_once-All memory)
                  recorded)
        ]
