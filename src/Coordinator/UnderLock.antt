-- ===== src/Coordinator/UnderLock.antt =====
-- The steps under the lock of evaluateAndPersist in internal/runner/runner.go, from the Load to the
-- unlock, against cycles that are taken one after the other.
use mathlib.Core.Path.{subst}
use swarm_sentinel.Base.{Text, text, text_eq, none, some, ==_iff, ◌≡◌, ◌∙◌, sym, ap, refl, arith}
use swarm_sentinel.Base.Dict.{lookup-insert}
use swarm_sentinel.State.Types.{State}
use swarm_sentinel.Compose.Types.{DesiredState}
use swarm_sentinel.Runner.Types.{Memory, Cycle}
use swarm_sentinel.Runner.Phases.{failed_cycle, saved_cycle, evaluate_loaded}
use swarm_sentinel.Runner.Options.{Runner}
use swarm_sentinel.Coordinator.Turns.{Turn, Fleet, after_effects}
use swarm_sentinel.Coordinator.Threads.{
  met, Phase, resting, holding, loaded, leaving, reporting, Crew, move, complete,
}
use swarm_sentinel.Coordinator.Sections.{locked_cycle, cycle_of-evaluates, after_effects-saved}
use swarm_sentinel.Coordinator.Critical.{Scene, Evaluates, HasStore, Fits, Fits-update, IsCritical}
use swarm_sentinel.Coordinator.Locked.{scene_of, IsSerial, complete-turns, IsCritical-update}

-- The thread with the lock goes on under it, and may change the store.
pub under_lock-IsSerial :
    (f : Fleet) (s : Crew) (n : Text) (p : Phase) (shared : State)
    → IsSerial f s
    → s.holder ≡ some n
    → IsCritical p
    → Fits (record (scene_of f s) { shared = shared }) n p
    → IsSerial f (record (move s n p) { fleet = record s.fleet { shared = shared } })
under_lock-IsSerial f s n p shared (taken, fits, free, held) holder critical fits' = (
  taken,
  Fits-update (scene_of f s) (record (scene_of f s) { shared = shared }) s.phase n p fits fits'
      (λ m other. (
        refl,
        λ holds. let same : m ≡ n = cc in absurd (ground (arith, other, (==_iff m n).1 same)),
      )),
  λ none_holds. absurd (ground (arith, none_holds, holder)),
  λ m holds. IsCritical-update s.phase n m p (λ same. critical) (held m holds),
)

-- How the thread with the lock ends its cycle.
leaving-Fits :
    (scene : Scene) (n : Text) (r : Runner) (turn : Turn) (memory : Memory) (desired : DesiredState)
    (c : Cycle) (shared : State)
    → Evaluates scene n r turn memory desired × HasStore scene n
    → locked_cycle r turn memory desired scene.before ≡ c
    → after_effects c.effects scene.before ≡ shared
    → Fits (record scene { shared = shared }) n (leaving r turn c)
leaving-Fits scene n r turn memory desired c shared ((name, found, ready), (holds, fresh)) ends
      leaves =
    (
      (name, found),
      holds,
      sym (cycle_of-evaluates r scene.before turn memory desired ready ∙ ends),
      sym leaves,
    )

pub load_fails-IsSerial :
    (f : Fleet) (s : Crew) (n : Text) (r : Runner) (turn : Turn) (memory : Memory)
    (desired : DesiredState) (e : Text)
    → IsSerial f s
    → s.phase n ≡ holding r turn memory desired
    → turn.load_error ≡ some e
    → IsSerial f (move s n (leaving r turn (failed_cycle (text "state load") memory e)))
unfolding locked_cycle failed_cycle after_effects
load_fails-IsSerial f s n r turn memory desired e serial at failed =
    let known = subst (Fits (scene_of f s) n) at (serial.1 n) in
    under_lock-IsSerial f s n _ s.fleet.shared serial known.1.0 tt (
      leaving-Fits (scene_of f s) n r turn memory desired
        (failed_cycle (text "state load") memory e) s.fleet.shared known (ground (arith, failed))
        (sym known.1.1))

pub loads-IsSerial :
    (f : Fleet) (s : Crew) (n : Text) (r : Runner) (turn : Turn) (memory : Memory)
    (desired : DesiredState)
    → IsSerial f s
    → s.phase n ≡ holding r turn memory desired
    → turn.load_error ≡ none
    → IsSerial f (move s n (loaded r turn memory desired s.fleet.shared))
loads-IsSerial f s n r turn memory desired serial at fine =
    let known = subst (Fits (scene_of f s) n) at (serial.1 n) in
    under_lock-IsSerial f s n _ s.fleet.shared serial known.1.0 tt (known, fine, known.1.1)

pub save_fails-IsSerial :
    (f : Fleet) (s : Crew) (n : Text) (r : Runner) (turn : Turn) (memory : Memory)
    (desired : DesiredState) (found : State) (e : Text)
    → IsSerial f s
    → s.phase n ≡ loaded r turn memory desired found
    → turn.save_error ≡ some e
    → IsSerial f (move s n (leaving r turn (failed_cycle (text "state save") memory e)))
unfolding locked_cycle failed_cycle after_effects
save_fails-IsSerial f s n r turn memory desired found e serial at failed =
    let (known, fine, equal) = subst (Fits (scene_of f s) n) at (serial.1 n) in
    under_lock-IsSerial f s n _ s.fleet.shared serial known.1.0 tt (
      leaving-Fits (scene_of f s) n r turn memory desired
        (failed_cycle (text "state save") memory e) s.fleet.shared known
        (ground (arith, fine, failed)) (sym known.1.1))

locked_cycle-saves :
    (r : Runner) (turn : Turn) (memory : Memory) (desired : DesiredState) (found : State)
    → turn.load_error ≡ none
    → turn.save_error ≡ none
    → locked_cycle r turn memory desired found
      ≡ saved_cycle r.settings (met r turn) memory desired found
unfolding locked_cycle
locked_cycle-saves r turn memory desired found read written = ground (arith, read, written)

pub saves-IsSerial :
    (f : Fleet) (s : Crew) (n : Text) (r : Runner) (turn : Turn) (memory : Memory)
    (desired : DesiredState) (found : State)
    → IsSerial f s
    → s.phase n ≡ loaded r turn memory desired found
    → turn.save_error ≡ none
    → let world = met r turn in
      IsSerial f
        (record (move s n (leaving r turn (saved_cycle r.settings world memory desired found))) {
          fleet = record s.fleet {
            shared = (evaluate_loaded r.settings world memory desired found).0;
          };
        })
saves-IsSerial f s n r turn memory desired found serial at written =
    let (known, read, equal) = subst (Fits (scene_of f s) n) at (serial.1 n) in
    let next = (evaluate_loaded r.settings (met r turn) memory desired found).0 in
    under_lock-IsSerial f s n _ next serial known.1.0 tt (
      leaving-Fits (scene_of f s) n r turn memory desired
        (saved_cycle r.settings (met r turn) memory desired found) next known
        (ap (locked_cycle r turn memory desired) (sym equal)
          ∙ locked_cycle-saves r turn memory desired found read written)
        (after_effects-saved r turn memory desired found (scene_of f s).before))

pub unlocks-IsSerial :
    (f : Fleet) (s : Crew) (r : Runner) (turn : Turn) (c : Cycle)
    → IsSerial f s
    → s.phase turn.name ≡ leaving r turn c
    → IsSerial f (record (complete s r turn c (reporting c)) { holder = none })
unlocks-IsSerial f s r turn c (taken, fits, free, held) at =
    let n = turn.name in
    let ((name, found), holds, done, left) = subst (Fits (scene_of f s) n) at (fits n) in
    let (taken', moved) = complete-turns f s r turn c (reporting c) taken found done in
    let t = record (complete s r turn c (reporting c)) { holder = none } in
    (
      taken',
      Fits-update (scene_of f s) (scene_of f t) s.phase n (reporting c) fits tt (λ m other. (
        lookup-insert m n (record r { memory = c.memory }) s.fleet.runners ∙ ground (arith, other),
        λ holds'. let same : m ≡ n = cc in absurd (ground (arith, other, (==_iff m n).1 same)),
      )),
      λ none_holds. left ∙ sym moved,
      λ m holds'. absurd (ground (arith, holds')),
    )

-- The cycle is reported after the unlock.
pub reports-IsSerial :
    (f : Fleet) (s : Crew) (n : Text) (c : Cycle)
    → IsSerial f s
    → s.phase n ≡ reporting c
    → IsSerial f (move s n resting)
reports-IsSerial f s n c (taken, fits, free, held) at = (
  taken,
  Fits-update (scene_of f s) (scene_of f s) s.phase n resting fits tt
      (λ m other. (refl, λ holds. (holds, refl, refl))),
  free,
  λ m holds.
      IsCritical-update s.phase n m resting
        (λ same. subst IsCritical (ap s.phase same ∙ at) (held m holds)) (held m holds),
)
