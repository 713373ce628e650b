-- ===== src/Coordinator/Others.antt =====
-- A cycle leaves the snapshots of the other stacks as they are: internal/runner/runner.go over the
-- store that the coordinator shares.
use swarm_sentinel.Base.{
  Text, text_eq, List, [], ◌∷◌, Option, Option-cases, All, false, not, is_nil, inl, inr, ◌==◌, ◌≡◌,
  refl, arith,
}
use swarm_sentinel.Base.Dict.{lookup}
use swarm_sentinel.Compose.Types.{DesiredState}
use swarm_sentinel.Health.Evaluate.{evaluate_stack_health}
use swarm_sentinel.Runner.Stabilize.{stabilize_transitions}
use swarm_sentinel.State.Types.{State, StackSnapshot}
use swarm_sentinel.Runner.Types.{
  Settings, Memory, World, Effect, saved, services_total, alerts_total, docker_api_error, notified,
  cycle_recorded, cycle_observed,
}
use swarm_sentinel.Runner.Cycle.{
  stack_key, record_metrics, notify_transitions, evaluate_and_persist, evaluate_step, cycle_records,
  run_once,
}
use swarm_sentinel.Runner.Effects.{
  All-append, IsLax, record_metrics-All, notify_transitions-All, run_once-All,
}
use swarm_sentinel.Coordinator.Turns.{Turn, shared_store, after_effects}
use swarm_sentinel.Coordinator.Own.{storing, lookup-with_snapshot_other}

-- A state that is saved has this snapshot under the key.
abbrev Leaves : Text → Option StackSnapshot → Effect → Type 0
Leaves k o (saved next) = lookup k next.stacks ≡ o
Leaves k o e = Unit

module _ (k : Text) (o : Option StackSnapshot) where
  Leaves-IsLax : IsLax (Leaves k o)
  Leaves-IsLax = record {
    counts = λ stack status n. tt;
    alerts = λ stack severity. tt;
    api_errors = tt;
    notices = λ stack ts. tt;
  }

  cycle_records-Leaves : (settings : Settings) → All (Leaves k o) (cycle_records settings)
  unfolding cycle_records
  cycle_records-Leaves settings = ground arith

  lookup-Leaves :
      (es : List Effect) (shared : State)
      → lookup k shared.stacks ≡ o
      → All (Leaves k o) es
      → lookup k (after_effects es shared).stacks ≡ o
  unfolding after_effects
  lookup-Leaves [] shared h g = h
  lookup-Leaves (saved next ∷ es) shared h g = lookup-Leaves es next g.0 g.1
  lookup-Leaves (services_total a b c ∷ es) shared h g = lookup-Leaves es shared h g.1
  lookup-Leaves (alerts_total a b ∷ es) shared h g = lookup-Leaves es shared h g.1
  lookup-Leaves (docker_api_error ∷ es) shared h g = lookup-Leaves es shared h g.1
  lookup-Leaves (notified a b ∷ es) shared h g = lookup-Leaves es shared h g.1
  lookup-Leaves (cycle_recorded a ∷ es) shared h g = lookup-Leaves es shared h g.1
  lookup-Leaves (cycle_observed ∷ es) shared h g = lookup-Leaves es shared h g.1

module _ (k : Text) (settings : Settings) (world : World) (turn : Turn) (s : State)
    (other : (k == stack_key settings.stack_name) ≡ false) where
  evaluate_and_persist-Leaves :
      (memory : Memory) (desired : DesiredState)
      → All
          (Leaves k (lookup k s.stacks))
          (evaluate_and_persist settings
            (storing world s turn)
            memory
            desired
            (shared_store s turn)).0
  unfolding evaluate_and_persist shared_store
  evaluate_and_persist-Leaves memory desired = elim (Option-cases turn.load_error) [
    | inr (e, failed) ↦ rw (failed, evaluate_and_persist, shared_store) tt
    | inl loaded ↦ elim (Option-cases turn.save_error) [
      | inr (e, failed) ↦ rw (loaded, failed, evaluate_and_persist, shared_store) tt
      | inl stored ↦
          let key = stack_key settings.stack_name in
          let health =
            evaluate_stack_health desired memory.last_actual_state
              (not (is_nil settings.stack_name)) in
          let stable =
            stabilize_transitions settings.alert_stabilization_cycles (lookup key s.stacks)
              health in
          let o = lookup k s.stacks in
          let lax = Leaves-IsLax k o in
          rw (loaded, stored, evaluate_and_persist, shared_store)
            (
              lookup-with_snapshot_other k key memory.compose_hash world.now stable.0 s other,
              All-append (Leaves k o) (record_metrics settings.has_metrics key health stable.1)
                  (notify_transitions world.notify key stable.1)
                  (record_metrics-All (Leaves k o) lax settings.has_metrics key health stable.1)
                  (notify_transitions-All (Leaves k o) lax world.notify key stable.1),
            )
    ]
  ]

  evaluate_step-Leaves :
      (memory : Memory)
      → All
          (Leaves k (lookup k s.stacks))
          (evaluate_step settings (storing world s turn) memory).effects
  unfolding evaluate_step
  evaluate_step-Leaves memory = elim (Option-cases memory.last_desired_state) [
    | inl without ↦ rw (without, evaluate_step) tt
    | inr (desired, known) ↦ rw (known, evaluate_step) (evaluate_and_persist-Leaves memory desired)
  ]

  -- A cycle leaves the snapshot of any other stack as it is.
  pub run_once-others :
      (memory : Memory)
      → lookup k (after_effects (run_once settings (storing world s turn) memory).effects s).stacks
        ≡ lookup k s.stacks
  run_once-others memory =
      let o = lookup k s.stacks in
      lookup-Leaves k o (run_once settings (storing world s turn) memory).effects s refl (
        run_once-All (Leaves k o) (Leaves-IsLax k o) settings (storing world s turn)
          evaluate_step-Leaves memory (cycle_records-Leaves k o settings))
