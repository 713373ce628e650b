-- ===== src/Coordinator/Locked.antt =====
-- The steps of the threads of internal/coordinator/coordinator.go up to the lock of
-- evaluateAndPersist in internal/runner/runner.go, against cycles that are taken one after the
-- other.
use mathlib.Core.Path.{subst}
use swarm_sentinel.Base.{
  Text, text_eq, [], ◌∷◌, ◌++◌, none, some, Bool-cases, inl, inr, ◌==◌, ==_iff, ◌≡◌, ◌∙◌, sym, ap,
  refl, arith,
}
use swarm_sentinel.Base.Dict.{lookup, insert, lookup-insert}
use swarm_sentinel.Compose.Types.{DesiredState}
use swarm_sentinel.Runner.Types.{Memory, Cycle}
use swarm_sentinel.Runner.Phases.{evaluates, ended, with_records}
use swarm_sentinel.Runner.Options.{Runner}
use swarm_sentinel.Coordinator.Turns.{Turn, Fleet, after_effects, cycle_of, take_turns}
use swarm_sentinel.Coordinator.Threads.{
  prepare_turn, Phase, resting, entering, holding, update, Crew, move, complete, at_rest,
}
use swarm_sentinel.Coordinator.Sections.{cycle_of-ended, after_effects-ended}
use swarm_sentinel.Coordinator.Later.{take_turns-later}
use swarm_sentinel.Coordinator.Critical.{Scene, Fits, Fits-update, IsCritical}

-- The scene of a system, against the completed turns taken one after the other.
abbrev pub scene_of : Fleet → Crew → Scene
scene_of f s = record {
  runners = s.fleet.runners;
  holder = s.holder;
  shared = s.fleet.shared;
  before = (take_turns f s.turns).1.shared;
}

-- The completed cycles are those of the turns taken one after the other, every thread has a phase
-- that fits, only a thread with the lock is under it, and without one the store is as they left it.
abbrev pub IsSerial : Fleet → Crew → Type 0
IsSerial f s =
    ((s.log ≡ (take_turns f s.turns).0) × (s.fleet.runners ≡ (take_turns f s.turns).1.runners))
    × ((m : Text) → Fits (scene_of f s) m (s.phase m))
    × (s.holder ≡ none → s.fleet.shared ≡ (take_turns f s.turns).1.shared)
    × ((m : Text) → s.holder ≡ some m → IsCritical (s.phase m))

pub start-IsSerial : (f : Fleet) → IsSerial f (at_rest f)
unfolding take_turns
start-IsSerial f = ((refl, refl), (λ m. tt), (λ free. refl), (λ m holds. absurd (ground arith)))

-- A cycle is completed.
pub complete-turns :
    (f : Fleet) (s : Crew) (r : Runner) (turn : Turn) (c : Cycle) (p : Phase)
    → (s.log ≡ (take_turns f s.turns).0) × (s.fleet.runners ≡ (take_turns f s.turns).1.runners)
    → lookup turn.name s.fleet.runners ≡ some r
    → c ≡ cycle_of r (take_turns f s.turns).1.shared turn
    → let t = complete s r turn c p in
      ((t.log ≡ (take_turns f t.turns).0) × (t.fleet.runners ≡ (take_turns f t.turns).1.runners))
      × ((take_turns f t.turns).1.shared ≡ after_effects c.effects (take_turns f s.turns).1.shared)
complete-turns f s r turn c p (log, runners) found cycle =
    let end = take_turns-later f s.turns turn r c (rw runners at found) (sym cycle) in
    (
      (
        ap (λ l. l ++ ((turn.name, c) ∷ [])) log ∙ sym (ap (λ p. p.0) end),
        ap (insert turn.name (record r { memory = c.memory })) runners
            ∙ sym (ap (λ p. p.1.runners) end),
      ),
      ap (λ p. p.1.shared) end,
    )

pub IsCritical-update :
    (phase : Text → Phase) (n m : Text) (p : Phase)
    → (m ≡ n → IsCritical p)
    → IsCritical (phase m)
    → IsCritical (update phase n p m)
IsCritical-update phase n m p own critical = elim (Bool-cases (m == n)) [
  | inl same ↦ rw same (own ((==_iff m n).0 same))
  | inr other ↦ rw other critical
]

not_critical :
    (phase : Text → Phase) (n m : Text) → phase n ≡ resting → m ≡ n → IsCritical (phase m) → ⊥
not_critical phase n m rests same critical = subst IsCritical (ap phase same ∙ rests) critical

pub ends_early-IsSerial :
    (f : Fleet) (s : Crew) (r : Runner) (turn : Turn) (c : Cycle)
    → IsSerial f s
    → lookup turn.name s.fleet.runners ≡ some r
    → s.phase turn.name ≡ resting
    → prepare_turn r turn ≡ ended c
    → IsSerial f (complete s r turn (with_records r.settings c) resting)
ends_early-IsSerial f s r turn c (taken, fits, free, held) found rests ready =
    let end = with_records r.settings c in
    let before = (take_turns f s.turns).1.shared in
    let (taken', moved) =
      complete-turns f s r turn end resting taken found
        (sym (cycle_of-ended r before turn c ready)) in
    let stays = moved ∙ after_effects-ended r before turn c ready in
    (
      taken',
      Fits-update (scene_of f s) (scene_of f (complete s r turn end resting)) s.phase turn.name
          resting fits tt
          (λ m other. (
            lookup-insert m turn.name (record r { memory = end.memory }) s.fleet.runners
                ∙ ground (arith, other),
            λ holds. (holds, refl, stays),
          )),
      λ none_holds. free none_holds ∙ sym stays,
      λ m holds.
          IsCritical-update s.phase turn.name m resting
            (λ same. not_critical s.phase turn.name m rests same (held m holds)) (held m holds),
    )

pub comes_to_lock-IsSerial :
    (f : Fleet) (s : Crew) (r : Runner) (turn : Turn) (memory : Memory) (desired : DesiredState)
    → IsSerial f s
    → lookup turn.name s.fleet.runners ≡ some r
    → s.phase turn.name ≡ resting
    → prepare_turn r turn ≡ evaluates memory desired
    → IsSerial f (move s turn.name (entering r turn memory desired))
comes_to_lock-IsSerial f s r turn memory desired (taken, fits, free, held) found rests ready =
    let p = entering r turn memory desired in
    (
      taken,
      Fits-update (scene_of f s) (scene_of f s) s.phase turn.name p fits (refl, found, ready)
          (λ m other. (refl, λ holds. (holds, refl, refl))),
      free,
      λ m holds.
          IsCritical-update s.phase turn.name m p
            (λ same. absurd (not_critical s.phase turn.name m rests same (held m holds)))
            (held m holds),
    )

pub locks-IsSerial :
    (f : Fleet) (s : Crew) (n : Text) (r : Runner) (turn : Turn) (memory : Memory)
    (desired : DesiredState)
    → IsSerial f s
    → s.phase n ≡ entering r turn memory desired
    → s.holder ≡ none
    → IsSerial f (record (move s n (holding r turn memory desired)) { holder = some n })
locks-IsSerial f s n r turn memory desired (taken, fits, free, held) at free' =
    let p = holding r turn memory desired in
    let known = subst (Fits (scene_of f s) n) at (fits n) in
    (
      taken,
      Fits-update (scene_of f s) (record (scene_of f s) { holder = some n }) s.phase n p fits
          (known, (refl, free free'))
          (λ m other. (refl, λ holds. absurd (ground (arith, holds, free')))),
      λ none_holds. absurd (ground (arith, none_holds)),
      λ m holds. let same : m ≡ n = cc in rw ((==_iff m n).1 same) tt,
    )
