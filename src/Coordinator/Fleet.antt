-- ===== src/Coordinator/Fleet.antt =====
-- The runners that the coordinator starts, and their cycles: internal/coordinator/coordinator.go.
use swarm_sentinel.Base.{
  Text, text_eq, List, [], ◌∷◌, some, true, false, Bool-cases, All, All-map, is_nil, inl, inr,
  success, Result-cases, ◌==◌, ==_iff, ◌≡◌, refl, arith,
}
use swarm_sentinel.Base.Dict.{Dict, lookup, insert, lookup-insert}
use swarm_sentinel.State.Types.{State}
use swarm_sentinel.Config.Url.{Parser}
use swarm_sentinel.Config.Mapping.{StackMapping, validate_mappings}
use swarm_sentinel.Config.Stacks.{IsStack, validate_mappings_lem}
use swarm_sentinel.Runner.Options.{
  Runner, with_compose_fetcher, with_swarm_client, with_stack_name, with_state_store, with_notifier,
  with_alert_stabilization_cycles, with_cycle_tracker, with_metrics, with_stacks_evaluated,
  apply_runner_options, new_runner,
}
use swarm_sentinel.Coordinator.Spawn.{
  Coordinator, Spawned, runner_options, spawn_runner, spawn_all, spawn,
}
use swarm_sentinel.Coordinator.Turns.{Turn, Fleet, take_turns}
use swarm_sentinel.Coordinator.Steps.{IsFor, HasOwnRunners}
use swarm_sentinel.Coordinator.Isolation.{own_log, turns_of, take_turns-alone}

spawn_runner-IsFor :
    (c : Coordinator) (m : StackMapping) (r : Runner)
    → c.has_state_store ≡ true
    → is_nil m.name ≡ false
    → spawn_runner c m ≡ success r
    → IsFor m.name r
unfolding spawn_runner runner_options new_runner apply_runner_options with_compose_fetcher
    with_swarm_client with_stack_name with_state_store with_notifier with_alert_stabilization_cycles
    with_cycle_tracker with_metrics with_stacks_evaluated
spawn_runner-IsFor c m r store named h = ground arith

insert-HasOwnRunners :
    (runners : Dict Text Runner) (name : Text) (r : Runner)
    → HasOwnRunners runners
    → IsFor name r
    → HasOwnRunners (insert name r runners)
insert-HasOwnRunners runners name r set is_for m q found =
    let stands = lookup-insert m name r runners in
    elim (Bool-cases (m == name)) [
      | inl same ↦
          let e : r ≡ q = ground (arith, stands, found, same) in
          rw (← e, (==_iff m name).0 same) is_for
      | inr other ↦ set m q (ground (arith, found, stands, other))
    ]

spawn_all-HasOwnRunners :
    (c : Coordinator) (ms : List StackMapping) (spawned : Spawned)
    → c.has_state_store ≡ true
    → All (λ m. is_nil m.name ≡ false) ms
    → HasOwnRunners spawned.runners
    → HasOwnRunners (spawn_all c ms spawned).runners
unfolding spawn_all
spawn_all-HasOwnRunners c [] spawned store named set = set
spawn_all-HasOwnRunners c (m ∷ ms) spawned store (here, rest) set =
    elim (Result-cases (spawn_runner c m)) [
      | inl (r, made) ↦
          rw (made, spawn_all)
            (spawn_all-HasOwnRunners c ms
              (record spawned { runners = insert m.name r spawned.runners }) store rest
              (insert-HasOwnRunners spawned.runners m.name r set
                (spawn_runner-IsFor c m r store here made)))
      | inr (e, failed) ↦
          rw (failed, spawn_all)
            (spawn_all-HasOwnRunners c ms
              (record spawned { runner_errors = insert m.name e spawned.runner_errors }) store rest
              set)
    ]

none-found : (m : Text) (r : Runner) → lookup m [] ≡ some r → ⊥
unfolding lookup
none-found m r h = cc

-- The fleet at its start.
unfoldable pub started_fleet : Coordinator → State → Fleet
unfolding spawn
started_fleet c shared = record { runners = (spawn c).runners; shared = shared }

-- With a state store and the stacks of a mapping file that is accepted, the runners may take their
-- cycles in any order: the cycles of a stack, its memory, errors, notices, metrics and its snapshot
-- of each saved state, and its runner and snapshot at the end, are those of its own turns alone.
pub started-isolation :
    (c : Coordinator) (parse : Parser) (shared : State) (turns : List Turn) (n : Text)
    → c.has_state_store ≡ true
    → validate_mappings parse c.mappings ≡ success tt
    → let together = take_turns (started_fleet c shared) turns in
      let alone = take_turns (started_fleet c shared) (turns_of n turns) in
      (own_log n together.0 ≡ own_log n alone.0)
      × (lookup n together.1.runners ≡ lookup n alone.1.runners)
      × (lookup n together.1.shared.stacks ≡ lookup n alone.1.shared.stacks)
unfolding started_fleet spawn
started-isolation c parse shared turns n store accepted =
    let (some_ms, stacks, distinct) = (validate_mappings_lem parse c.mappings).0 accepted in
    let set =
      spawn_all-HasOwnRunners c c.mappings (record { runners = []; runner_errors = [] }) store
        (All-map (IsStack parse) (λ m. is_nil m.name ≡ false) c.mappings (λ m stack. stack.0)
          stacks)
        (λ m r found. absurd (none-found m r found)) in
    let (logs, ends) =
      take_turns-alone n (started_fleet c shared) (started_fleet c shared) turns set (refl, refl) in
    (logs, ends.0, ends.1)
