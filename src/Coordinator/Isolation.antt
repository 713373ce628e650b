-- ===== src/Coordinator/Isolation.antt =====
-- Each stack runs as if it were alone: the goroutines of internal/coordinator/coordinator.go.
use mathlib.Core.Path.{subst}
use swarm_sentinel.Base.{
  Text, text_eq, List, [], ◌∷◌, none, some, Option-cases, false, Bool-cases, inl, inr, ◌==◌, ==_iff,
  ◌≡◌, ◌∙◌, sym, refl, arith, if◌then◌else◌,
}
use swarm_sentinel.Base.Dict.{lookup}
use swarm_sentinel.Runner.Types.{Cycle}
use swarm_sentinel.Coordinator.Turns.{Turn, Fleet, cycle_of, take_turn, take_turns}
use swarm_sentinel.Coordinator.Steps.{
  HasOwnRunners, OwnCycle, own_cycle, Agree, cycle_of-alike, take_turn-others, take_turn-own,
  take_turn-HasOwnRunners,
}

-- The cycles of the stack.
abbrev pub own_log : Text → List (Text × Cycle) → List OwnCycle
own_log n [] = []
own_log n ((m, c) ∷ log) = if m == n then own_cycle n c ∷ own_log n log else own_log n log

-- The turns of the stack.
abbrev pub turns_of : Text → List Turn → List Turn
turns_of n [] = []
turns_of n (t ∷ ts) = if t.name == n then t ∷ turns_of n ts else turns_of n ts

-- What the log holds of a turn.
own_log-turn :
    (n : Text) (f : Fleet) (t : Turn) (turns : List Turn)
    → own_log n (take_turns f (t ∷ turns)).0 ≡ (elim (lookup t.name f.runners) [
      | none ↦ own_log n (take_turns (take_turn f t) turns).0
      | some r ↦
          if t.name == n
          then own_cycle n (cycle_of r f.shared t) ∷ own_log n (take_turns (take_turn f t) turns).0
          else own_log n (take_turns (take_turn f t) turns).0
    ])
unfolding take_turns
own_log-turn n f t turns = ground arith

take_turns-end :
    (f : Fleet) (t : Turn) (turns : List Turn)
    → (take_turns f (t ∷ turns)).1 ≡ (take_turns (take_turn f t) turns).1
unfolding take_turns
take_turns-end f t turns = ground arith

-- Two runs give the stack the same cycles and the same end.
abbrev AreSame : Text → Fleet → List Turn → Fleet → List Turn → Type 0
AreSame n f ts g us =
    (own_log n (take_turns f ts).0 ≡ own_log n (take_turns g us).0)
    × Agree n (take_turns f ts).1 (take_turns g us).1

AreSame-own :
    (f g : Fleet) (t : Turn) (ts us : List Turn)
    → HasOwnRunners f.runners
    → Agree t.name f g
    → AreSame t.name (take_turn f t) ts (take_turn g t) us
    → AreSame t.name f (t ∷ ts) g (t ∷ us)
AreSame-own f g t ts us set (runner, snapshot) (logs, ends) =
    elim (Option-cases (lookup t.name f.runners)) [
      | inl missing ↦
          let missing' : lookup t.name g.runners ≡ none = sym runner ∙ missing in
          (
            own_log-turn t.name f t ts
                ∙ ground (arith, missing, missing', logs)
                ∙ sym (own_log-turn t.name g t us),
            rw (take_turns-end f t ts, take_turns-end g t us) ends,
          )
      | inr (r, found) ↦
          let found' : lookup t.name g.runners ≡ some r = sym runner ∙ found in
          let alike = cycle_of-alike t.name r t f.shared g.shared (set t.name r found) snapshot in
          (
            own_log-turn t.name f t ts
                ∙ ground (arith, found, found', logs, alike)
                ∙ sym (own_log-turn t.name g t us),
            rw (take_turns-end f t ts, take_turns-end g t us) ends,
          )
    ]

AreSame-own_named :
    (n : Text) (f g : Fleet) (t : Turn) (ts us : List Turn)
    → t.name ≡ n
    → HasOwnRunners f.runners
    → Agree n f g
    → (Agree n (take_turn f t) (take_turn g t) → AreSame n (take_turn f t) ts (take_turn g t) us)
    → AreSame n f (t ∷ ts) g (t ∷ us)
AreSame-own_named n f g t ts us name set agree rest =
    subst
      (λ (m : Text).
        Agree m f g
        → (Agree m (take_turn f t) (take_turn g t)
            → AreSame m (take_turn f t) ts (take_turn g t) us)
        → AreSame m f (t ∷ ts) g (t ∷ us))
      name (λ agree rest. AreSame-own f g t ts us set agree (rest (take_turn-own f g t set agree)))
      agree rest

AreSame-other :
    (n : Text) (f g : Fleet) (t : Turn) (ts us : List Turn)
    → (t.name == n) ≡ false
    → AreSame n (take_turn f t) ts g us
    → AreSame n f (t ∷ ts) g us
AreSame-other n f g t ts us other (logs, ends) = elim (Option-cases (lookup t.name f.runners)) [
  | inl missing ↦
      (own_log-turn n f t ts ∙ ground (arith, missing, logs), rw (take_turns-end f t ts) ends)
  | inr (r, found) ↦
      (own_log-turn n f t ts ∙ ground (arith, found, logs, other), rw (take_turns-end f t ts) ends)
]

Agree-trans : (n : Text) (f g h : Fleet) → Agree n f g → Agree n g h → Agree n f h
Agree-trans n f g h (a, b) (c, d) = (a ∙ c, b ∙ d)

-- The cycles of a stack and their end are those of its own turns alone.
pub take_turns-alone :
    (n : Text) (f g : Fleet) (turns : List Turn)
    → HasOwnRunners f.runners
    → Agree n f g
    → AreSame n f turns g (turns_of n turns)
unfolding take_turns
take_turns-alone n f g [] set agree = (refl, agree)
take_turns-alone n f g (t ∷ turns) set agree = elim (Bool-cases (t.name == n)) [
  | inl own ↦
      let name = (==_iff t.name n).0 own in
      rw own (
        AreSame-own_named n f g t turns (turns_of n turns) name set agree (
          take_turns-alone n (take_turn f t) (take_turn g t) turns
            (take_turn-HasOwnRunners f t set)))
  | inr other ↦ rw other (
      AreSame-other n f g t turns (turns_of n turns) other (
        take_turns-alone n (take_turn f t) g turns (take_turn-HasOwnRunners f t set)
          (Agree-trans n (take_turn f t) f g (take_turn-others n f t set other) agree)))
]
