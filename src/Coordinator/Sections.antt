-- ===== src/Coordinator/Sections.antt =====
-- A cycle over the shared store is what its steps make of it: the part before the lock, and the section
-- under the lock of evaluateAndPersist in internal/runner/runner.go.
use swarm_sentinel.Base.{
  text, text_eq, List, [], ◌∷◌, ◌++◌, Option, none, some, Option-cases, All, Bool, true, false, inl,
  inr, ◌≡◌, ◌∙◌, ap, refl, arith, if◌then◌else◌,
}
use swarm_sentinel.Compose.Types.{DesiredState}
use swarm_sentinel.State.Types.{State}
use swarm_sentinel.Runner.Types.{
  Settings, Memory, Store, World, Effect, saved, services_total, alerts_total, docker_api_error,
  notified, cycle_recorded, cycle_observed, Cycle,
}
use swarm_sentinel.Runner.Cycle.{
  stack_key, record_metrics, notify_transitions, refresh_desired, accept_result, accept_body,
  cycle_records,
}
use swarm_sentinel.Runner.Effects.{All-append, IsLax, record_metrics-All, notify_transitions-All}
use swarm_sentinel.Runner.Phases.{
  ended, evaluates, with_records, prepare, prepare_actual, prepare_step, has_some, outcome, finish,
  health_of, evaluate_loaded, failed_cycle, saved_cycle, run_once-outcome,
}
use swarm_sentinel.Runner.Options.{Runner}
use swarm_sentinel.Coordinator.Turns.{Turn, shared_store, world_of, after_effects, cycle_of}
use swarm_sentinel.Coordinator.Threads.{met, prepare_turn}

-- The end of a cycle that evaluates, from the state that it finds under the lock.
unfoldable pub locked_cycle : Runner → Turn → Memory → DesiredState → State → Cycle
unfolding failed_cycle saved_cycle
locked_cycle r turn memory desired found = elim turn.load_error [
  | some e ↦ failed_cycle (text "state load") memory e
  | none ↦ elim turn.save_error [
    | some e ↦ failed_cycle (text "state save") memory e
    | none ↦ saved_cycle r.settings (met r turn) memory desired found
  ]
]

-- The store that the runner meets, if it has one.
abbrev store_of : Runner → State → Turn → Option Store
store_of r s turn = if r.has_state_store then some (shared_store s turn) else none

prepare_without_store :
    (has : Bool) (settings : Settings) (world : World) (store : Option Store) (memory : Memory)
    → prepare has settings (record world { store = store }) memory
      ≡ prepare has settings world memory
unfolding prepare prepare_actual prepare_step refresh_desired accept_result accept_body
prepare_without_store has settings world store memory = refl

has_some-store_of :
    (r : Runner) (s : State) (turn : Turn) → has_some (store_of r s turn) ≡ r.has_state_store
has_some-store_of r s turn = ground arith

-- The cycle of a turn, by what it prepares.
cycle_of-outcome :
    (r : Runner) (s : State) (turn : Turn)
    → cycle_of r s turn
      ≡ outcome r.settings (record (met r turn) { store = store_of r s turn }) (prepare_turn r turn)
unfolding cycle_of world_of met prepare_turn
cycle_of-outcome r s turn =
    let world = record (met r turn) { store = store_of r s turn } in
    run_once-outcome r.settings world r.memory
    ∙ ap (λ has. outcome r.settings world (prepare has r.settings world r.memory))
        (has_some-store_of r s turn)
    ∙ ap (outcome r.settings world) (
        prepare_without_store r.has_state_store r.settings (met r turn) (store_of r s turn)
          r.memory)

-- A turn that ends before the lock does so whatever is in the store.
pub cycle_of-ended :
    (r : Runner) (s : State) (turn : Turn) (cycle : Cycle)
    → prepare_turn r turn ≡ ended cycle
    → cycle_of r s turn ≡ with_records r.settings cycle
unfolding outcome
cycle_of-ended r s turn cycle h =
    cycle_of-outcome r s turn
    ∙ ap (outcome r.settings (record (met r turn) { store = store_of r s turn })) h

prepare_evaluates :
    (settings : Settings) (world : World) (memory m : Memory) (d : DesiredState) (has : Bool)
    → prepare has settings world memory ≡ evaluates m d
    → has ≡ true
unfolding prepare prepare_actual prepare_step
prepare_evaluates settings world memory m d true h = refl
prepare_evaluates settings world memory m d false h = ground arith

outcome-locked :
    (r : Runner) (s : State) (turn : Turn) (memory : Memory) (desired : DesiredState)
    → outcome r.settings
        (record (met r turn) { store = some (shared_store s turn) })
        (evaluates memory desired)
      ≡ locked_cycle r turn memory desired s
unfolding outcome finish locked_cycle shared_store
outcome-locked r s turn memory desired = elim (Option-cases turn.load_error) [
  | inr (e, failed) ↦ ground arith
  | inl read ↦ elim (Option-cases turn.save_error) [
    | inr (e, failed) ↦ ground arith
    | inl written ↦ ground arith
  ]
]

-- Any other one ends as its section under the lock makes it.
pub cycle_of-evaluates :
    (r : Runner) (s : State) (turn : Turn) (memory : Memory) (desired : DesiredState)
    → prepare_turn r turn ≡ evaluates memory desired
    → cycle_of r s turn ≡ locked_cycle r turn memory desired s
unfolding prepare_turn
cycle_of-evaluates r s turn memory desired h =
    let stored =
      prepare_evaluates r.settings (met r turn) r.memory memory desired r.has_state_store h in
    cycle_of-outcome r s turn
    ∙ ap (outcome r.settings (record (met r turn) { store = store_of r s turn })) h
    ∙ ap
        (λ has.
          outcome r.settings
            (record (met r turn) { store = if has then some (shared_store s turn) else none })
            (evaluates memory desired))
        stored
    ∙ outcome-locked r s turn memory desired

-- The effect saves nothing.
abbrev Unsaved : Effect → Type 0
Unsaved (saved _) = ⊥
Unsaved e = Unit

Unsaved-IsLax : IsLax Unsaved
Unsaved-IsLax = record {
  counts = λ stack status n. tt;
  alerts = λ stack severity. tt;
  api_errors = tt;
  notices = λ stack ts. tt;
}

after_effects-Unsaved : (es : List Effect) (s : State) → All Unsaved es → after_effects es s ≡ s
unfolding after_effects
after_effects-Unsaved [] s h = refl
after_effects-Unsaved (saved _ ∷ es) s h = absurd h.0
after_effects-Unsaved (services_total a b c ∷ es) s h = after_effects-Unsaved es s h.1
after_effects-Unsaved (alerts_total a b ∷ es) s h = after_effects-Unsaved es s h.1
after_effects-Unsaved (docker_api_error ∷ es) s h = after_effects-Unsaved es s h.1
after_effects-Unsaved (notified a b ∷ es) s h = after_effects-Unsaved es s h.1
after_effects-Unsaved (cycle_recorded a ∷ es) s h = after_effects-Unsaved es s h.1
after_effects-Unsaved (cycle_observed ∷ es) s h = after_effects-Unsaved es s h.1

cycle_records-Unsaved : (settings : Settings) → All Unsaved (cycle_records settings)
unfolding cycle_records
cycle_records-Unsaved settings = ground arith

prepare_step-Unsaved :
    (has : Bool) (memory : Memory) (cycle : Cycle)
    → prepare_step has memory ≡ ended cycle
    → All Unsaved cycle.effects
unfolding prepare_step
prepare_step-Unsaved has memory cycle h = elim (Option-cases memory.last_desired_state) [
  | inl unknown ↦ ground arith
  | inr (desired, known) ↦ ground arith
]

prepare_actual-Unsaved :
    (has : Bool) (settings : Settings) (world : World) (memory : Memory) (cycle : Cycle)
    → prepare_actual has settings world memory ≡ ended cycle
    → All Unsaved cycle.effects
unfolding prepare_actual
prepare_actual-Unsaved has settings world memory cycle h = grind (arith, prepare_step-Unsaved)

prepare-Unsaved :
    (has : Bool) (settings : Settings) (world : World) (memory : Memory) (cycle : Cycle)
    → prepare has settings world memory ≡ ended cycle
    → All Unsaved cycle.effects
unfolding prepare
prepare-Unsaved has settings world memory cycle h = grind (arith, prepare_actual-Unsaved)

with_records-Unsaved :
    (settings : Settings) (cycle : Cycle)
    → All Unsaved cycle.effects
    → All Unsaved (with_records settings cycle).effects
unfolding with_records
with_records-Unsaved settings cycle h = elim (Option-cases cycle.error) [
  | inl fine ↦
      rw (fine, with_records)
        (All-append Unsaved cycle.effects (cycle_records settings) h
          (cycle_records-Unsaved settings))
  | inr (e, failed) ↦ rw (failed, with_records) h
]

-- What the steps leave in the store.
pub after_effects-ended :
    (r : Runner) (s : State) (turn : Turn) (cycle : Cycle)
    → prepare_turn r turn ≡ ended cycle
    → after_effects (with_records r.settings cycle).effects s ≡ s
unfolding prepare_turn
after_effects-ended r s turn cycle h =
    after_effects-Unsaved (with_records r.settings cycle).effects s (
      with_records-Unsaved r.settings cycle
        (prepare-Unsaved r.has_state_store r.settings (met r turn) r.memory cycle h))

pub after_effects-saved :
    (r : Runner) (turn : Turn) (memory : Memory) (desired : DesiredState) (found s : State)
    → after_effects (saved_cycle r.settings (met r turn) memory desired found).effects s
      ≡ (evaluate_loaded r.settings (met r turn) memory desired found).0
unfolding saved_cycle after_effects with_records
after_effects-saved r turn memory desired found s =
    let key = stack_key r.settings.stack_name in
    let (next, transitions) = evaluate_loaded r.settings (met r turn) memory desired found in
    let health = health_of r.settings memory desired in
    let metrics = record_metrics r.settings.has_metrics key health transitions in
    let notices = notify_transitions (met r turn).notify key transitions in
    after_effects-Unsaved ((metrics ++ notices) ++ cycle_records r.settings) next (
      All-append Unsaved (metrics ++ notices) (cycle_records r.settings)
        (All-append Unsaved metrics notices
          (record_metrics-All Unsaved Unsaved-IsLax r.settings.has_metrics key health transitions)
          (notify_transitions-All Unsaved Unsaved-IsLax (met r turn).notify key transitions))
        (cycle_records-Unsaved r.settings))
