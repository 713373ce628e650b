-- ===== src/Coordinator/Steps.antt =====
-- What one turn does to its stack and to the others: the goroutines of
-- internal/coordinator/coordinator.go.
use swarm_sentinel.Base.{
  Text, text_eq, List, [], Option, none, some, Option-cases, true, false, Bool-cases, is_nil, inl,
  inr, ◌==◌, ==_iff, ◌≡◌, ◌∙◌, sym, ap, refl, arith, pos, if◌then◌else◌,
}
use swarm_sentinel.Base.Dict.{Dict, lookup, insert, lookup-insert}
use swarm_sentinel.State.Types.{State}
use swarm_sentinel.Runner.Types.{Memory, World, CycleError, Cycle}
use swarm_sentinel.Runner.Cycle.{stack_key}
use swarm_sentinel.Runner.Options.{Runner}
use swarm_sentinel.Coordinator.Turns.{Turn, Fleet, world_of, after_effects, cycle_of, take_turn}
use swarm_sentinel.Coordinator.Own.{
  OwnEffect, own_effects, lookup-after_effects, storing, run_once-alike,
}
use swarm_sentinel.Coordinator.Others.{run_once-others}

-- The runner is for the stack of this name and stores its state.
abbrev pub IsFor : Text → Runner → Type 0
IsFor name r = (is_nil name ≡ false) × (r.settings.stack_name ≡ name) × (r.has_state_store ≡ true)

-- Every runner stands under the name of its stack.
abbrev pub HasOwnRunners : Dict Text Runner → Type 0
HasOwnRunners runners = (m : Text) (r : Runner) → lookup m runners ≡ some r → IsFor m r

-- A cycle as its own stack sees it: memory, error, and the effects with its snapshot of each saved
-- state, notices and metrics included.
pub record OwnCycle : Type 0 where
  pub memory : Memory
  pub error : Option CycleError
  pub effects : List OwnEffect

abbrev pub own_cycle : Text → Cycle → OwnCycle
own_cycle n c = record { memory = c.memory; error = c.error; effects = own_effects n c.effects }

-- The fleets have the same runner and the same snapshot of the stack.
abbrev pub Agree : Text → Fleet → Fleet → Type 0
Agree n f g =
    (lookup n f.runners ≡ lookup n g.runners)
    × (lookup n f.shared.stacks ≡ lookup n g.shared.stacks)

stack_key-IsFor : (name : Text) (r : Runner) → IsFor name r → stack_key r.settings.stack_name ≡ name
unfolding stack_key
stack_key-IsFor name r h = ground arith

-- The world of a cycle, but for the store.
abbrev connected : Runner → Turn → World
connected r t = world_of r (record { version = pos 0; stacks = [] }) t

world_of-storing :
    (r : Runner) (s : State) (t : Turn)
    → r.has_state_store ≡ true
    → world_of r s t ≡ storing (connected r t) s t
unfolding world_of
world_of-storing r s t h = ground arith

pub cycle_of-alike :
    (n : Text) (r : Runner) (t : Turn) (s u : State)
    → IsFor n r
    → lookup n s.stacks ≡ lookup n u.stacks
    → own_cycle n (cycle_of r s t) ≡ own_cycle n (cycle_of r u t)
unfolding cycle_of
cycle_of-alike n r t s u h same =
    let key = stack_key-IsFor n r h in
    let same' : lookup (stack_key r.settings.stack_name) s.stacks
        ≡ lookup (stack_key r.settings.stack_name) u.stacks =
      rw key same in
    let alike = run_once-alike r.settings (connected r t) t s u same' r.memory in
    let alike' = rw key at alike in
    rw (world_of-storing r s t h.2, world_of-storing r u t h.2) (ground (arith, alike'))

pub cycle_of-others :
    (n m : Text) (r : Runner) (t : Turn) (s : State)
    → IsFor m r
    → (n == m) ≡ false
    → lookup n (after_effects (cycle_of r s t).effects s).stacks ≡ lookup n s.stacks
unfolding cycle_of
cycle_of-others n m r t s h other =
    let key = stack_key-IsFor m r h in
    let other' : (n == stack_key r.settings.stack_name) ≡ false = rw key other in
    rw (world_of-storing r s t h.2)
      (run_once-others n r.settings (connected r t) t s other' r.memory)

-- A turn of another stack changes nothing for this one.
pub take_turn-others :
    (n : Text) (f : Fleet) (t : Turn)
    → HasOwnRunners f.runners
    → (t.name == n) ≡ false
    → Agree n (take_turn f t) f
unfolding take_turn
take_turn-others n f t set other = elim (Option-cases (lookup t.name f.runners)) [
  | inl missing ↦ rw (missing, take_turn) (refl, refl)
  | inr (r, found) ↦
      let other' : (n == t.name) ≡ false = ground arith in
      rw (found, take_turn)
        (
          lookup-insert n t.name _ f.runners ∙ ground (arith, other'),
          cycle_of-others n t.name r t f.shared (set t.name r found) other',
        )
]

-- Its own turn depends on nothing but its runner and its snapshot.
pub take_turn-own :
    (f g : Fleet) (t : Turn)
    → HasOwnRunners f.runners
    → Agree t.name f g
    → Agree t.name (take_turn f t) (take_turn g t)
unfolding take_turn
take_turn-own f g t set (runner, snapshot) = elim (Option-cases (lookup t.name f.runners)) [
  | inl missing ↦
      let missing' : lookup t.name g.runners ≡ none = sym runner ∙ missing in
      rw (missing, missing', take_turn) (missing ∙ sym missing', snapshot)
  | inr (r, found) ↦
      let found' : lookup t.name g.runners ≡ some r = sym runner ∙ found in
      let alike = cycle_of-alike t.name r t f.shared g.shared (set t.name r found) snapshot in
      let c = cycle_of r f.shared t in
      let d = cycle_of r g.shared t in
      let memory : c.memory ≡ d.memory = ap (λ (o : OwnCycle). o.memory) alike in
      let effects : own_effects t.name c.effects ≡ own_effects t.name d.effects =
        ap (λ (o : OwnCycle). o.effects) alike in
      rw (found, found', take_turn)
        (
          lookup-insert t.name t.name _ f.runners
              ∙ ap
                  (λ (memory : Memory).
                    if t.name == t.name
                    then some (record r { memory = memory })
                    else lookup t.name f.runners)
                  memory
              ∙ ground arith
              ∙ sym (lookup-insert t.name t.name _ g.runners),
          lookup-after_effects t.name c.effects f.shared
              ∙ ground (arith, effects, snapshot)
              ∙ sym (lookup-after_effects t.name d.effects g.shared),
        )
]

pub take_turn-HasOwnRunners :
    (f : Fleet) (t : Turn) → HasOwnRunners f.runners → HasOwnRunners (take_turn f t).runners
unfolding take_turn
take_turn-HasOwnRunners f t set m r found = elim (Option-cases (lookup t.name f.runners)) [
  | inl missing ↦ set m r (ground arith)
  | inr (before, standing) ↦
      let of_turn = set t.name before standing in
      let c = cycle_of before f.shared t in
      let after = record before { memory = c.memory } in
      let stands = lookup-insert m t.name after f.runners in
      elim (Bool-cases (m == t.name)) [
        | inl same ↦
            let name = (==_iff m t.name).0 same in
            let found' : lookup m (insert t.name after f.runners) ≡ some r =
              ground (arith, found) in
            let e : after ≡ r = ground (arith, stands, found', same) in rw (← e, name) of_turn
        | inr other ↦ set m r (ground (arith, found, stands))
      ]
]
