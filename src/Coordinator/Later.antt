-- ===== src/Coordinator/Later.antt =====
-- One turn more after some turns of the runners of internal/coordinator/coordinator.go.
use mathlib.Core.List.{append_assoc}
use swarm_sentinel.Base.{
  Text, text_eq, List, [], ◌∷◌, ◌++◌, none, some, Option-cases, inl, inr, ◌≡◌, ◌∙◌, sym, ap, arith,
}
use swarm_sentinel.Base.Dict.{lookup, insert}
use swarm_sentinel.Runner.Types.{Cycle}
use swarm_sentinel.Runner.Options.{Runner}
use swarm_sentinel.Coordinator.Turns.{Turn, Fleet, after_effects, cycle_of, take_turn, take_turns}

take_turn-found :
    (f : Fleet) (t : Turn) (r : Runner) (c : Cycle)
    → lookup t.name f.runners ≡ some r
    → cycle_of r f.shared t ≡ c
    → take_turn f t ≡ record {
      runners = insert t.name (record r { memory = c.memory }) f.runners;
      shared = after_effects c.effects f.shared;
    }
unfolding take_turn
take_turn-found f t r c found cycle = ground (arith, found, cycle)

-- The cycle of the next turn, if its name has a runner.
abbrev logged : Fleet → Turn → List (Text × Cycle)
logged f t = elim (lookup t.name f.runners) [
  | none ↦ []
  | some r ↦ (t.name, cycle_of r f.shared t) ∷ []
]

take_turns-first :
    (f : Fleet) (t : Turn) (ts : List Turn)
    → let (log, end) = take_turns (take_turn f t) ts in
      take_turns f (t ∷ ts) ≡ (logged f t ++ log, end)
unfolding take_turns
take_turns-first f t ts = elim (Option-cases (lookup t.name f.runners)) [
  | inl missing ↦ ground (arith, missing)
  | inr (q, present) ↦ ground (arith, present)
]

-- The cycles and the fleet after one turn more.
abbrev pub extended :
    Turn → Runner → Cycle → List (Text × Cycle) × Fleet → List (Text × Cycle) × Fleet
extended t r c (log, end) = (
  log ++ ((t.name, c) ∷ []),
  record {
    runners = insert t.name (record r { memory = c.memory }) end.runners;
    shared = after_effects c.effects end.shared;
  },
)

pub take_turns-later :
    (f : Fleet) (ts : List Turn) (t : Turn) (r : Runner) (c : Cycle)
    → lookup t.name (take_turns f ts).1.runners ≡ some r
    → cycle_of r (take_turns f ts).1.shared t ≡ c
    → take_turns f (ts ++ (t ∷ [])) ≡ extended t r c (take_turns f ts)
unfolding take_turns
take_turns-later f [] t r c found cycle =
    ground (arith, found, cycle, take_turn-found f t r c found cycle)
take_turns-later f (u ∷ ts) t r c found cycle =
    let first = take_turns-first f u ts in
    let end = ap (λ (p : List (Text × Cycle) × Fleet). p.1) first in
    let later =
      take_turns-later (take_turn f u) ts t r c
        (sym (ap (λ (g : Fleet). lookup t.name g.runners) end) ∙ found)
        (sym (ap (λ (g : Fleet). cycle_of r g.shared t) end) ∙ cycle) in
    take_turns-first f u (ts ++ (t ∷ []))
    ∙ ap (λ p. (logged f u ++ p.0, p.1)) later
    ∙ ap (λ log. (log, (extended t r c (take_turns (take_turn f u) ts)).1))
        (sym (append_assoc (logged f u) (take_turns (take_turn f u) ts).0 ((t.name, c) ∷ [])))
    ∙ sym (ap (extended t r c) first)
