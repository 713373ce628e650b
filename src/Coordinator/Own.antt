-- ===== src/Coordinator/Own.antt =====
-- What one cycle has to do with the snapshots of the other stacks: evaluateAndPersist of
-- internal/runner/runner.go over the store that the coordinator shares.
use swarm_sentinel.Base.{
  ℕ, Text, text_eq, List, [], ◌∷◌, ◌++◌, Option, some, Option-cases, false, not, is_nil, inl, inr,
  ◌==◌, ◌≡◌, ◌∙◌, ap, refl, arith,
}
use swarm_sentinel.Base.Dict.{Dict, lookup, lookup-insert}
use swarm_sentinel.Compose.Types.{DesiredState}
use swarm_sentinel.Health.Types.{ServiceHealth}
use swarm_sentinel.Health.Evaluate.{evaluate_stack_health}
use swarm_sentinel.Runner.Stabilize.{stabilize_transitions}
use swarm_sentinel.State.Types.{State, StackSnapshot}
use swarm_sentinel.Runner.Types.{
  Settings, Memory, World, Effect, saved, services_total, alerts_total, docker_api_error, notified,
  cycle_recorded, cycle_observed, Cycle,
}
use swarm_sentinel.Runner.Cycle.{
  stack_key, with_snapshot, evaluate_and_persist, evaluate_step, collect_actual, refresh_desired,
  accept_result, accept_body, default_run_once, cycle_records, run_once,
}
use swarm_sentinel.Coordinator.Turns.{Turn, shared_store, after_effects}

-- An effect as the stack with this key sees it: of a saved state its own snapshot.
pub data OwnEffect : Type 0 where
  own_saved : Option StackSnapshot → OwnEffect
  own_other : Effect → OwnEffect

abbrev pub own_effect : Text → Effect → OwnEffect
own_effect key (saved next) = own_saved (lookup key next.stacks)
own_effect key e = own_other e

abbrev pub own_effects : Text → List Effect → List OwnEffect
own_effects key [] = []
own_effects key (e ∷ es) = own_effect key e ∷ own_effects key es

own_effects-append :
    (key : Text) (es fs : List Effect)
    → own_effects key (es ++ fs) ≡ own_effects key es ++ own_effects key fs
own_effects-append key [] fs = refl
own_effects-append key (e ∷ es) fs = ap (◌∷◌ (own_effect key e)) (own_effects-append key es fs)

-- The snapshot of the stack after the effects, from the one before.
abbrev pub own_after : List OwnEffect → Option StackSnapshot → Option StackSnapshot
own_after [] o = o
own_after (own_saved next ∷ es) o = own_after es next
own_after (own_other e ∷ es) o = own_after es o

pub lookup-after_effects :
    (key : Text) (es : List Effect) (shared : State)
    → lookup key (after_effects es shared).stacks
      ≡ own_after (own_effects key es) (lookup key shared.stacks)
unfolding after_effects
lookup-after_effects key [] shared = refl
lookup-after_effects key (saved next ∷ es) shared = lookup-after_effects key es next
lookup-after_effects key (services_total a b c ∷ es) shared = lookup-after_effects key es shared
lookup-after_effects key (alerts_total a b ∷ es) shared = lookup-after_effects key es shared
lookup-after_effects key (docker_api_error ∷ es) shared = lookup-after_effects key es shared
lookup-after_effects key (notified a b ∷ es) shared = lookup-after_effects key es shared
lookup-after_effects key (cycle_recorded a ∷ es) shared = lookup-after_effects key es shared
lookup-after_effects key (cycle_observed ∷ es) shared = lookup-after_effects key es shared

lookup-with_snapshot :
    (key hash : Text) (now : ℕ) (services : Dict Text ServiceHealth) (shared : State)
    → lookup key (with_snapshot key hash now services shared).stacks
      ≡ some (record { desired_fingerprint = hash; services = services; evaluated_at = now })
unfolding with_snapshot
lookup-with_snapshot key hash now services shared =
    lookup-insert key key _ shared.stacks ∙ ground arith

pub lookup-with_snapshot_other :
    (k key hash : Text) (now : ℕ) (services : Dict Text ServiceHealth) (shared : State)
    → (k == key) ≡ false
    → lookup k (with_snapshot key hash now services shared).stacks ≡ lookup k shared.stacks
unfolding with_snapshot
lookup-with_snapshot_other k key hash now services shared other =
    lookup-insert k key _ shared.stacks ∙ ground arith

-- The world with this store in it.
abbrev pub storing : World → State → Turn → World
storing world shared turn = record world { store = some (shared_store shared turn) }

module _ (settings : Settings) (world : World) (turn : Turn) (s t : State)
    (same : lookup (stack_key settings.stack_name) s.stacks
      ≡ lookup (stack_key settings.stack_name) t.stacks) where
  -- The cycles agree for the stack.
  abbrev pub AreAlike : Cycle → Cycle → Type 0
  AreAlike c d =
      (c.memory ≡ d.memory)
      × (c.error ≡ d.error)
      × (own_effects (stack_key settings.stack_name) c.effects
          ≡ own_effects (stack_key settings.stack_name) d.effects)

  evaluate_and_persist-alike :
      (memory : Memory) (desired : DesiredState)
      → let a =
          evaluate_and_persist settings
            (storing world s turn)
            memory
            desired
            (shared_store s turn) in
        let b =
          evaluate_and_persist settings
            (storing world t turn)
            memory
            desired
            (shared_store t turn) in
        (a.1 ≡ b.1)
        × (own_effects (stack_key settings.stack_name) a.0
            ≡ own_effects (stack_key settings.stack_name) b.0)
  unfolding evaluate_and_persist shared_store
  evaluate_and_persist-alike memory desired = elim (Option-cases turn.load_error) [
    | inr (e, failed) ↦ ground arith
    | inl loaded ↦ elim (Option-cases turn.save_error) [
      | inr (e, failed) ↦ ground arith
      | inl stored ↦
          let key = stack_key settings.stack_name in
          let health =
            evaluate_stack_health desired memory.last_actual_state
              (not (is_nil settings.stack_name)) in
          let stable = λ (o : Option StackSnapshot).
            stabilize_transitions settings.alert_stabilization_cycles o health in
          ground (
            arith,
            lookup-with_snapshot key memory.compose_hash world.now (stable (lookup key s.stacks)).0
                s,
            lookup-with_snapshot key memory.compose_hash world.now (stable (lookup key t.stacks)).0
                t,
          )
    ]
  ]

  refresh_desired-alike :
      (memory : Memory)
      → refresh_desired (storing world s turn) memory
        ≡ refresh_desired (storing world t turn) memory
  unfolding refresh_desired accept_result accept_body
  refresh_desired-alike memory = refl

  evaluate_step-alike :
      (memory : Memory)
      → AreAlike
          (evaluate_step settings (storing world s turn) memory)
          (evaluate_step settings (storing world t turn) memory)
  unfolding evaluate_step
  evaluate_step-alike memory = elim (Option-cases memory.last_desired_state) [
    | inl without ↦ ground arith
    | inr (desired, known) ↦ ground (arith, evaluate_and_persist-alike memory desired)
  ]

  collect_actual-alike :
      (memory : Memory)
      → AreAlike
          (collect_actual settings (storing world s turn) memory)
          (collect_actual settings (storing world t turn) memory)
  unfolding collect_actual
  collect_actual-alike memory = grind (arith, evaluate_step-alike)

  default_run_once-alike :
      (memory : Memory)
      → AreAlike
          (default_run_once settings (storing world s turn) memory)
          (default_run_once settings (storing world t turn) memory)
  unfolding default_run_once
  default_run_once-alike memory = ground (
    arith,
    refresh_desired-alike memory,
    collect_actual-alike (refresh_desired (storing world t turn) memory).0,
  )

  pub run_once-alike :
      (memory : Memory)
      → AreAlike
          (run_once settings (storing world s turn) memory)
          (run_once settings (storing world t turn) memory)
  unfolding run_once
  run_once-alike memory = ground (
    arith,
    default_run_once-alike memory,
    own_effects-append (stack_key settings.stack_name)
        (default_run_once settings (storing world s turn) memory).effects (cycle_records settings),
    own_effects-append (stack_key settings.stack_name)
        (default_run_once settings (storing world t turn) memory).effects (cycle_records settings),
  )
