-- ===== src/Coordinator/Turns.antt =====
-- The runners of all the stacks over one store: the goroutines that Run of
-- internal/coordinator/coordinator.go starts. A cycle meets the shared state only between the Load and
-- the Save of evaluateAndPersist, which stand under one lock, so the cycles of all the runners are
-- taken one after the other, in any order.
use swarm_sentinel.Base.{
  Text, text_eq, List, [], ◌∷◌, Option, none, some, success, failure, if◌then◌else◌,
}
use swarm_sentinel.Base.Dict.{Dict, lookup, insert}
use swarm_sentinel.State.Types.{State}
use swarm_sentinel.Runner.Types.{Store, World, Effect, saved, Cycle}
use swarm_sentinel.Runner.Cycle.{run_once}
use swarm_sentinel.Runner.Options.{Runner}

-- A cycle of the runner of a stack: what it meets, and the errors of its Load and its Save, if any.
-- The collaborators that the runner lacks and the store of `world` are not used.
pub record Turn : Type 0 where
  pub name : Text
  pub world : World
  pub load_error : Option Text
  pub save_error : Option Text

-- The runners, and the state in the store that they share.
pub record Fleet : Type 0 where
  pub runners : Dict Text Runner
  pub shared : State

-- The store as a turn finds it.
unfoldable pub shared_store : State → Turn → Store
shared_store shared turn = record {
  load = elim turn.load_error [ none ↦ success shared | some e ↦ failure e ];
  save = λ next. turn.save_error;
}

-- What the cycle of this runner meets.
unfoldable pub world_of : Runner → State → Turn → World
unfolding shared_store
world_of r shared turn = record turn.world {
  fetch = elim r.fetcher [ none ↦ none | some f ↦ turn.world.fetch ];
  get_actual_state = if r.has_swarm_client then turn.world.get_actual_state else none;
  store = if r.has_state_store then some (shared_store shared turn) else none;
  notify = if r.has_notifier then turn.world.notify else none;
}

-- The state in the store after these effects.
unfoldable pub after_effects : List Effect → State → State
after_effects [] shared = shared
after_effects (saved next ∷ effects) shared = after_effects effects next
after_effects (_ ∷ effects) shared = after_effects effects shared

unfoldable pub cycle_of : Runner → State → Turn → Cycle
unfolding world_of run_once
cycle_of r shared turn = run_once r.settings (world_of r shared turn) r.memory

-- One turn. For a name with no runner nothing happens.
unfoldable pub take_turn : Fleet → Turn → Fleet
unfolding lookup insert cycle_of after_effects
take_turn fleet turn = elim (lookup turn.name fleet.runners) [
  | none ↦ fleet
  | some r ↦
      let cycle = cycle_of r fleet.shared turn in
      record {
        runners = insert turn.name (record r { memory = cycle.memory }) fleet.runners;
        shared = after_effects cycle.effects fleet.shared;
      }
]

-- The cycles, each with the name of its stack, in the order in which they are taken.
unfoldable pub take_turns : Fleet → List Turn → List (Text × Cycle) × Fleet
unfolding take_turn cycle_of
take_turns fleet [] = ([], fleet)
take_turns fleet (turn ∷ turns) =
    let (log, end) = take_turns (take_turn fleet turn) turns in
    elim (lookup turn.name fleet.runners) [
      | none ↦ (log, end)
      | some r ↦ ((turn.name, cycle_of r fleet.shared turn) ∷ log, end)
    ]
