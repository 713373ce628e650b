-- ===== src/Coordinator/Critical.antt =====
-- What the threads of internal/coordinator/coordinator.go know of the shared store while one of them
-- holds the lock of evaluateAndPersist in internal/runner/runner.go.
use mathlib.Core.Path.{subst}
use swarm_sentinel.Base.{
  Text, text_eq, Option, none, some, false, Bool-cases, inl, inr, ◌==◌, ==_iff, ◌≡◌, ◌∙◌, sym, ap,
}
use swarm_sentinel.Base.Dict.{Dict, lookup}
use swarm_sentinel.State.Types.{State}
use swarm_sentinel.Compose.Types.{DesiredState}
use swarm_sentinel.Runner.Types.{Memory}
use swarm_sentinel.Runner.Phases.{evaluates}
use swarm_sentinel.Runner.Options.{Runner}
use swarm_sentinel.Coordinator.Turns.{Turn, after_effects, cycle_of}
use swarm_sentinel.Coordinator.Threads.{
  prepare_turn, Phase, resting, entering, holding, loaded, leaving, reporting, update,
}

-- What the threads have in common: the runners, who holds the lock, the state in the store, and the
-- state that the cycles completed so far have left.
pub record Scene : Type 0 where
  pub runners : Dict Text Runner
  pub holder : Option Text
  pub shared : State
  pub before : State

-- The thread of this name is about to evaluate, with what its runner has prepared.
abbrev pub Evaluates : Scene → Text → Runner → Turn → Memory → DesiredState → Type 0
Evaluates scene n r turn memory desired =
    (turn.name ≡ n)
    × (lookup n scene.runners ≡ some r)
    × (prepare_turn r turn ≡ evaluates memory desired)

-- The thread has the lock, and the store is as the completed cycles have left it.
abbrev pub HasStore : Scene → Text → Type 0
HasStore scene n = (scene.holder ≡ some n) × (scene.shared ≡ scene.before)

-- What is so at each phase of the thread of this name.
abbrev pub Fits : Scene → Text → Phase → Type 0
Fits scene n resting = Unit
Fits scene n (reporting _) = Unit
Fits scene n (entering r turn memory desired) = Evaluates scene n r turn memory desired
Fits scene n (holding r turn memory desired) =
    Evaluates scene n r turn memory desired × HasStore scene n
Fits scene n (loaded r turn memory desired found) =
    (Evaluates scene n r turn memory desired × HasStore scene n)
    × (turn.load_error ≡ none)
    × (found ≡ scene.before)
Fits scene n (leaving r turn cycle) =
    ((turn.name ≡ n) × (lookup n scene.runners ≡ some r))
    × (scene.holder ≡ some n)
    × (cycle ≡ cycle_of r scene.before turn)
    × (scene.shared ≡ after_effects cycle.effects scene.before)

-- Under the lock.
abbrev pub IsCritical : Phase → Type 0
IsCritical resting = ⊥
IsCritical (entering _ _ _ _) = ⊥
IsCritical (reporting _) = ⊥
IsCritical _ = Unit

pub Fits-holder :
    (scene : Scene) (n : Text) (p : Phase) → Fits scene n p → IsCritical p → scene.holder ≡ some n
Fits-holder scene n resting fits critical = absurd critical
Fits-holder scene n (reporting _) fits critical = absurd critical
Fits-holder scene n (entering _ _ _ _) fits critical = absurd critical
Fits-holder scene n (holding r turn memory desired) (known, has) critical = has.0
Fits-holder scene n (loaded r turn memory desired found) ((known, has), rest, equal) critical =
    has.0
Fits-holder scene n (leaving r turn cycle) (known, holds, done, left) critical = holds

-- To the thread of this name the scene stays the same.
abbrev Keeps : Text → Scene → Scene → Type 0
Keeps n scene later =
    (lookup n later.runners ≡ lookup n scene.runners)
    × (scene.holder ≡ some n
        → (later.holder ≡ some n) × (later.shared ≡ scene.shared) × (later.before ≡ scene.before))

Fits-Keeps :
    (scene later : Scene) (n : Text) (p : Phase)
    → Keeps n scene later
    → Fits scene n p
    → Fits later n p
Fits-Keeps scene later n resting (runner, same) fits = tt
Fits-Keeps scene later n (reporting cycle) (runner, same) fits = tt
Fits-Keeps scene later n (entering r turn memory desired) (runner, same) (name, found, ready) =
    (name, runner ∙ found, ready)
Fits-Keeps scene later n (holding r turn memory desired) (runner, same)
      ((name, found, ready), (holds, fresh)) =
    let (holds', shared, before) = same holds in
    ((name, runner ∙ found, ready), (holds', shared ∙ fresh ∙ sym before))
Fits-Keeps scene later n (loaded r turn memory desired state) (runner, same)
      (((name, found, ready), (holds, fresh)), read, equal) =
    let (holds', shared, before) = same holds in
    (
      ((name, runner ∙ found, ready), (holds', shared ∙ fresh ∙ sym before)),
      read,
      equal ∙ sym before,
    )
Fits-Keeps scene later n (leaving r turn cycle) (runner, same) ((name, found), holds, done, left) =
    let (holds', shared, before) = same holds in
    (
      (name, runner ∙ found),
      holds',
      done ∙ ap (λ s. cycle_of r s turn) (sym before),
      shared ∙ left ∙ ap (after_effects cycle.effects) (sym before),
    )

-- One thread comes to another phase, and the others see no change.
pub Fits-update :
    (scene later : Scene) (phase : Text → Phase) (n : Text) (p : Phase)
    → ((m : Text) → Fits scene m (phase m))
    → Fits later n p
    → ((m : Text) → (m == n) ≡ false → Keeps m scene later)
    → (m : Text) → Fits later m (update phase n p m)
Fits-update scene later phase n p fits own others m = elim (Bool-cases (m == n)) [
  | inl same ↦ rw same (subst (λ m. Fits later m p) (sym ((==_iff m n).0 same)) own)
  | inr other ↦ rw other (Fits-Keeps scene later m (phase m) (others m other) (fits m))
]
