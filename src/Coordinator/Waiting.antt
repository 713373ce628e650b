-- ===== src/Coordinator/Waiting.antt =====
-- The lock of evaluateAndPersist in internal/runner/runner.go is always given back: the threads of
-- internal/coordinator/coordinator.go.
use mathlib.Core.Path.{subst}
use swarm_sentinel.Base.{
  Text, text_eq, none, some, Option-cases, true, false, Bool-cases, inl, inr, ◌==◌, ==_iff, ◌≡◌,
  ◌∙◌, sym, ap, refl,
}
use swarm_sentinel.State.Types.{State}
use swarm_sentinel.Compose.Types.{DesiredState}
use swarm_sentinel.Runner.Types.{Memory, Cycle}
use swarm_sentinel.Runner.Options.{Runner}
use swarm_sentinel.Coordinator.Turns.{Turn, Fleet}
use swarm_sentinel.Coordinator.Threads.{
  Phase, resting, entering, holding, loaded, leaving, reporting, update, Crew, Step, locks,
  load_fails, loads, save_fails, saves, unlocks, Reach,
}
use swarm_sentinel.Coordinator.Critical.{Scene, Fits, IsCritical}
use swarm_sentinel.Coordinator.Locked.{scene_of}
use swarm_sentinel.Coordinator.Serial.{Reach-IsSerial}

-- Some steps of the threads.
pub data Steps : Crew → Crew → Type 0 where
  stay : {s : Crew} → Steps s s
  then_step : {s t u : Crew} → Step true s t → Steps t u → Steps s u

Steps-then : {s t u : Crew} → Steps s t → Step true t u → Steps s u
Steps-then stay step = then_step step stay
Steps-then (then_step first rest) step = then_step first (Steps-then rest step)

-- Some steps give back the lock, and the thread of this name stays where it is.
abbrev Frees : Crew → Text → Type 0
Frees s n = (t : Crew) × Steps s t × (t.holder ≡ none) × (t.phase n ≡ s.phase n)

update-own : (phase : Text → Phase) (m : Text) (p : Phase) → update phase m p m ≡ p
update-own phase m p = rw ((==_iff m m).1 refl) refl

update-other :
    (phase : Text → Phase) (n m : Text) (p : Phase)
    → (n == m) ≡ false
    → update phase m p n ≡ phase n
update-other phase n m p other = rw other refl

module _ (n m : Text) (other : (n == m) ≡ false) where
  Step-Frees : (s t : Crew) → Step true s t → t.phase n ≡ s.phase n → Frees t n → Frees s n
  Step-Frees s t step stands (u, steps, free, same) = (u, then_step step steps, free, same ∙ stands)

  leaving-Frees :
      (s : Crew) (r : Runner) (turn : Turn) (c : Cycle)
      → turn.name ≡ m
      → s.phase m ≡ leaving r turn c
      → Frees s n
  leaving-Frees s r turn c name at =
      (_, then_step (unlocks m r turn c at) stay, refl, rw (name, other) refl)

  loaded-Frees :
      (s : Crew) (r : Runner) (turn : Turn) (memory : Memory) (desired : DesiredState)
      (found : State)
      → turn.name ≡ m
      → s.phase m ≡ loaded r turn memory desired found
      → Frees s n
  loaded-Frees s r turn memory desired found name at = elim (Option-cases turn.save_error) [
    | inl written ↦
        Step-Frees s _ (saves m r turn memory desired found at written)
          (update-other s.phase n m _ other)
          (leaving-Frees _ r turn _ name (update-own s.phase m _))
    | inr (e, failed) ↦
        Step-Frees s _ (save_fails m r turn memory desired found e at failed)
          (update-other s.phase n m _ other)
          (leaving-Frees _ r turn _ name (update-own s.phase m _))
  ]

  holding-Frees :
      (s : Crew) (r : Runner) (turn : Turn) (memory : Memory) (desired : DesiredState)
      → turn.name ≡ m
      → s.phase m ≡ holding r turn memory desired
      → Frees s n
  holding-Frees s r turn memory desired name at = elim (Option-cases turn.load_error) [
    | inl fine ↦
        Step-Frees s _ (loads m r turn memory desired at fine) (update-other s.phase n m _ other)
          (loaded-Frees _ r turn memory desired _ name (update-own s.phase m _))
    | inr (e, failed) ↦
        Step-Frees s _ (load_fails m r turn memory desired e at failed)
          (update-other s.phase n m _ other)
          (leaving-Frees _ r turn _ name (update-own s.phase m _))
  ]

  critical-Frees :
      (scene : Scene) (s : Crew) (p : Phase)
      → s.phase m ≡ p
      → Fits scene m p
      → IsCritical p
      → Frees s n
  critical-Frees scene s resting at fits critical = absurd critical
  critical-Frees scene s (entering r turn memory desired) at fits critical = absurd critical
  critical-Frees scene s (reporting c) at fits critical = absurd critical
  critical-Frees scene s (holding r turn memory desired) at fits critical =
      holding-Frees s r turn memory desired fits.0.0 at
  critical-Frees scene s (loaded r turn memory desired found) at fits critical =
      loaded-Frees s r turn memory desired found fits.0.0.0 at
  critical-Frees scene s (leaving r turn c) at fits critical = leaving-Frees s r turn c fits.0.0 at

Reach-Frees :
    (f : Fleet) (s : Crew) (n : Text) (r : Runner) (turn : Turn) (memory : Memory)
    (desired : DesiredState)
    → Reach true f s
    → s.phase n ≡ entering r turn memory desired
    → Frees s n
Reach-Frees f s n r turn memory desired path at = elim (Option-cases s.holder) [
  | inl free ↦ (s, stay, free, refl)
  | inr (m, holds) ↦
      let (taken, fits, free, held) = Reach-IsSerial path in
      elim (Bool-cases (n == m)) [
        | inl same ↦
            absurd (subst IsCritical (ap s.phase (sym ((==_iff n m).0 same)) ∙ at) (held m holds))
        | inr other ↦
            critical-Frees n m other (scene_of f s) s (s.phase m) refl (fits m) (held m holds)
      ]
]

-- A thread before the lock is never shut out: from every system that can be reached and in which it
-- stands there, some steps lead to one in which it holds the lock, with what it had prepared.
pub Reach-enters :
    (f : Fleet) (s : Crew) (n : Text) (r : Runner) (turn : Turn) (memory : Memory)
    (desired : DesiredState)
    → Reach true f s
    → s.phase n ≡ entering r turn memory desired
    → (t : Crew) × Steps s t × (t.holder ≡ some n) × (t.phase n ≡ holding r turn memory desired)
Reach-enters f s n r turn memory desired path at =
    let (t, steps, free, same) = Reach-Frees f s n r turn memory desired path at in
    (
      _,
      Steps-then steps (locks n r turn memory desired (same ∙ at) (λ shares. free)),
      refl,
      update-own t.phase n _,
    )
