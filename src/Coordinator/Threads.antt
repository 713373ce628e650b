-- ===== src/Coordinator/Threads.antt =====
-- The runners as threads: the goroutines that Run of internal/coordinator/coordinator.go starts, at the
-- grain of the calls that meet the shared store, which are the lock, Load, Save and the unlock of
-- evaluateAndPersist in internal/runner/runner.go.
use swarm_sentinel.Base.{
  Text, text, text_eq, List, [], ◌∷◌, ◌++◌, Option, none, some, Bool, true, ◌==◌, ◌≡◌,
  if◌then◌else◌,
}
use swarm_sentinel.Base.Dict.{lookup, insert}
use swarm_sentinel.Compose.Types.{DesiredState}
use swarm_sentinel.State.Types.{State}
use swarm_sentinel.Runner.Types.{Memory, World, Cycle}
use swarm_sentinel.Runner.Phases.{
  Prepared, ended, evaluates, with_records, prepare, evaluate_loaded, failed_cycle, saved_cycle,
}
use swarm_sentinel.Runner.Options.{Runner}
use swarm_sentinel.Coordinator.Turns.{Turn, Fleet}

-- What a cycle of the runner meets, but for the store.
unfoldable pub met : Runner → Turn → World
met r turn = record turn.world {
  fetch = elim r.fetcher [ none ↦ none | some f ↦ turn.world.fetch ];
  get_actual_state = if r.has_swarm_client then turn.world.get_actual_state else none;
  store = none;
  notify = if r.has_notifier then turn.world.notify else none;
}

unfoldable pub prepare_turn : Runner → Turn → Prepared
unfolding met prepare
prepare_turn r turn = prepare r.has_state_store r.settings (met r turn) r.memory

-- Where a thread stands: between two cycles, before the lock, with the lock, after Load with the state
-- that it gave, before the unlock with what its cycle comes to, and after it, with the metrics and the
-- notices of the cycle to see to.
pub data Phase : Type 0 where
  resting : Phase
  entering : Runner → Turn → Memory → DesiredState → Phase
  holding : Runner → Turn → Memory → DesiredState → Phase
  loaded : Runner → Turn → Memory → DesiredState → State → Phase
  leaving : Runner → Turn → Cycle → Phase
  reporting : Cycle → Phase

-- The threads by name over the fleet, who holds the lock that they share, and the cycles that are through
-- with the store with their turns, in this order.
pub record Crew : Type 0 where
  pub fleet : Fleet
  pub holder : Option Text
  pub phase : Text → Phase
  pub log : List (Text × Cycle)
  pub turns : List Turn

abbrev pub update : (Text → Phase) → Text → Phase → Text → Phase
update phase n p m = if m == n then p else phase m

abbrev pub move : Crew → Text → Phase → Crew
move s n p = record s { phase = update s.phase n p }

-- A cycle is through with the store, its thread goes to this phase, and the runner keeps its memory.
abbrev pub complete : Crew → Runner → Turn → Cycle → Phase → Crew
complete s r turn cycle p = record s {
  fleet = record s.fleet {
    runners = insert turn.name (record r { memory = cycle.memory }) s.fleet.runners;
  };
  phase = update s.phase turn.name p;
  log = s.log ++ ((turn.name, cycle) ∷ []);
  turns = s.turns ++ (turn ∷ []);
}

-- The steps of a thread. With `shares` the runners have one lock, and else each has its own, which
-- stops nobody.
pub data Step (shares : Bool) (s : Crew) : Crew → Type 0 where
  ends_early :
      (r : Runner) (turn : Turn) (cycle : Cycle)
      → lookup turn.name s.fleet.runners ≡ some r
      → s.phase turn.name ≡ resting
      → prepare_turn r turn ≡ ended cycle
      → Step shares s (complete s r turn (with_records r.settings cycle) resting)
  comes_to_lock :
      (r : Runner) (turn : Turn) (memory : Memory) (desired : DesiredState)
      → lookup turn.name s.fleet.runners ≡ some r
      → s.phase turn.name ≡ resting
      → prepare_turn r turn ≡ evaluates memory desired
      → Step shares s (move s turn.name (entering r turn memory desired))
  locks :
      (n : Text) (r : Runner) (turn : Turn) (memory : Memory) (desired : DesiredState)
      → s.phase n ≡ entering r turn memory desired
      → (shares ≡ true → s.holder ≡ none)
      → Step shares s (record (move s n (holding r turn memory desired)) {
        holder = if shares then some n else s.holder;
      })
  load_fails :
      (n : Text) (r : Runner) (turn : Turn) (memory : Memory) (desired : DesiredState) (e : Text)
      → s.phase n ≡ holding r turn memory desired
      → turn.load_error ≡ some e
      → Step shares s (move s n (leaving r turn (failed_cycle (text "state load") memory e)))
  loads :
      (n : Text) (r : Runner) (turn : Turn) (memory : Memory) (desired : DesiredState)
      → s.phase n ≡ holding r turn memory desired
      → turn.load_error ≡ none
      → Step shares s (move s n (loaded r turn memory desired s.fleet.shared))
  save_fails :
      (n : Text) (r : Runner) (turn : Turn) (memory : Memory) (desired : DesiredState)
      (found : State) (e : Text)
      → s.phase n ≡ loaded r turn memory desired found
      → turn.save_error ≡ some e
      → Step shares s (move s n (leaving r turn (failed_cycle (text "state save") memory e)))
  saves :
      (n : Text) (r : Runner) (turn : Turn) (memory : Memory) (desired : DesiredState)
      (found : State)
      → s.phase n ≡ loaded r turn memory desired found
      → turn.save_error ≡ none
      → Step shares s
          (record (move s n
            (leaving r turn (saved_cycle r.settings (met r turn) memory desired found))) {
              fleet = record s.fleet {
                shared = (evaluate_loaded r.settings (met r turn) memory desired found).0;
              };
            })
  unlocks :
      (n : Text) (r : Runner) (turn : Turn) (cycle : Cycle)
      → s.phase n ≡ leaving r turn cycle
      → Step shares s (record (complete s r turn cycle (reporting cycle)) {
        holder = if shares then none else s.holder;
      })
  -- The metrics and the notices of the cycle.
  reports :
      (n : Text) (cycle : Cycle) → s.phase n ≡ reporting cycle → Step shares s (move s n resting)

-- The start: every thread rests and nobody holds the lock.
abbrev pub at_rest : Fleet → Crew
at_rest f = record { fleet = f; holder = none; phase = λ n. resting; log = []; turns = [] }

-- The systems that the threads come to, their steps interleaved in any order.
pub data Reach (shares : Bool) (f : Fleet) : Crew → Type 0 where
  start : Reach shares f (at_rest f)
  later : {s t : Crew} → Reach shares f s → Step shares s t → Reach shares f t
