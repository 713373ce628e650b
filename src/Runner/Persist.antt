-- ===== src/Runner/Persist.antt =====
-- What a cycle leaves behind: the saved state, the order of the effects, and the error paths.
use swarm_sentinel.Base.{
  Text, text_eq, [], ◌∷◌, ◌++◌, none, some, Option-cases, Bool, true, false, not, inl, inr, ◌==◌,
  is_nil, success, Result-cases, ◌≡◌, refl, arith, if◌then◌else◌,
}
use swarm_sentinel.Base.Dict.{lookup, lookup-insert}
use swarm_sentinel.Health.Types.{StackHealth}
use swarm_sentinel.Health.Evaluate.{evaluate_stack_health}
use swarm_sentinel.Compose.Types.{DesiredState}
use swarm_sentinel.State.Types.{State}
use swarm_sentinel.Runner.Types.{
  CycleError, Settings, Memory, Store, World, Effect, saved, notified,
}
use swarm_sentinel.Runner.Stabilize.{stabilize_transitions}
use swarm_sentinel.Runner.Cycle.{
  stack_key, record_metrics, notify_transitions, with_snapshot, evaluate_and_persist,
}

-- An effect that reaches the store or the notifier.
abbrev pub is_saved : Effect → Bool
is_saved (saved _) = true
is_saved _ = false

abbrev pub is_notified : Effect → Bool
is_notified (notified _ _) = true
is_notified _ = false

module _ (settings : Settings) (world : World) (memory : Memory) (desired : DesiredState)
    (store : Store) where
  -- The health that the cycle evaluates.
  abbrev health_now : StackHealth
  health_now =
      evaluate_stack_health desired memory.last_actual_state (not (is_nil settings.stack_name))

  -- The cycle has loaded a state and, first of all its effects, saved one in which this stack has
  -- the new snapshot and every other stack what it had; the counts and the notice that follow are
  -- of the transitions from the loaded snapshot.
  abbrev pub HasPersisted : Type 0
  HasPersisted =
      (loaded : State) × (next : State) × (store.load ≡ success loaded)
      × (store.save next ≡ none)
      × (let key = stack_key settings.stack_name in
          let stable =
            stabilize_transitions settings.alert_stabilization_cycles (lookup key loaded.stacks)
              health_now in
          ((evaluate_and_persist settings world memory desired store).0
            ≡ saved next
              ∷ (record_metrics settings.has_metrics key health_now stable.1
                  ++ notify_transitions world.notify key stable.1))
          × (next.version ≡ loaded.version)
          × ((k : Text)
              → lookup k next.stacks ≡ (
                  if k == key
                  then some (record {
                    desired_fingerprint = memory.compose_hash;
                    services = stable.0;
                    evaluated_at = world.now;
                  })
                  else lookup k loaded.stacks)))

  -- If evaluateAndPersist returns no error, it has loaded a state, and saved first of all one in
  -- which this stack has the new snapshot and every other stack what it had. The counts and the
  -- notice that follow are of the transitions from the loaded snapshot.
  pub evaluate_and_persist-saved :
      (evaluate_and_persist settings world memory desired store).1 ≡ none → HasPersisted
  unfolding evaluate_and_persist with_snapshot
  evaluate_and_persist-saved ok = elim (Result-cases store.load) [
    | inr (e, failed) ↦ absurd (ground arith)
    | inl (loaded, found) ↦
        let key = stack_key settings.stack_name in
        let stable =
          stabilize_transitions settings.alert_stabilization_cycles (lookup key loaded.stacks)
            health_now in
        let next = with_snapshot key memory.compose_hash world.now stable.0 loaded in
        elim (Option-cases (store.save next)) [
          | inr (e, failed) ↦ absurd (ground arith)
          | inl stored ↦
              (loaded, next, found, stored, (ground arith, refl, λ k. lookup-insert k key _ _))
        ]
  ]

  -- If it returns an error, nothing has been saved, counted or notified.
  pub evaluate_and_persist-failed :
      (e : CycleError)
      → (evaluate_and_persist settings world memory desired store).1 ≡ some e
      → (evaluate_and_persist settings world memory desired store).0 ≡ []
  unfolding evaluate_and_persist
  evaluate_and_persist-failed e failed = ground arith
