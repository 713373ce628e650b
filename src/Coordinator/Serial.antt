-- ===== src/Coordinator/Serial.antt =====
-- The interleavings of the runners of internal/coordinator/coordinator.go, against cycles that are
-- taken one after the other, and what follows for the lock of evaluateAndPersist in
-- internal/runner/runner.go and for the stacks.
use mathlib.Core.Path.{subst}
use swarm_sentinel.Base.{Text, text_eq, List, none, true, ◌≡◌, ◌∙◌, success, ap, refl}
use swarm_sentinel.Base.Dict.{lookup}
use swarm_sentinel.State.Types.{State}
use swarm_sentinel.Runner.Types.{Cycle}
use swarm_sentinel.Coordinator.Turns.{Fleet, take_turns}
use swarm_sentinel.Coordinator.Threads.{
  Crew, Step, ends_early, comes_to_lock, locks, load_fails, loads, save_fails, saves, unlocks,
  reports, Reach, start, later,
}
use swarm_sentinel.Coordinator.Critical.{Fits, Fits-holder, IsCritical}
use swarm_sentinel.Coordinator.UnderLock.{
  load_fails-IsSerial, loads-IsSerial, save_fails-IsSerial, saves-IsSerial, unlocks-IsSerial,
  reports-IsSerial,
}
use swarm_sentinel.Coordinator.Locked.{
  scene_of, IsSerial, start-IsSerial, ends_early-IsSerial, comes_to_lock-IsSerial, locks-IsSerial,
}
use swarm_sentinel.Config.Url.{Parser}
use swarm_sentinel.Config.Mapping.{validate_mappings}
use swarm_sentinel.Coordinator.Spawn.{Coordinator}
use swarm_sentinel.Coordinator.Isolation.{own_log, turns_of}
use swarm_sentinel.Coordinator.Fleet.{started_fleet, started-isolation}

Step-IsSerial : (f : Fleet) (s t : Crew) → IsSerial f s → Step true s t → IsSerial f t
Step-IsSerial f s _ serial (ends_early r turn cycle found rests ready) =
    ends_early-IsSerial f s r turn cycle serial found rests ready
Step-IsSerial f s _ serial (comes_to_lock r turn memory desired found rests ready) =
    comes_to_lock-IsSerial f s r turn memory desired serial found rests ready
Step-IsSerial f s _ serial (locks n r turn memory desired at free) =
    locks-IsSerial f s n r turn memory desired serial at (free refl)
Step-IsSerial f s _ serial (load_fails n r turn memory desired e at failed) =
    load_fails-IsSerial f s n r turn memory desired e serial at failed
Step-IsSerial f s _ serial (loads n r turn memory desired at fine) =
    loads-IsSerial f s n r turn memory desired serial at fine
Step-IsSerial f s _ serial (save_fails n r turn memory desired found e at failed) =
    save_fails-IsSerial f s n r turn memory desired found e serial at failed
Step-IsSerial f s _ serial (saves n r turn memory desired found at written) =
    saves-IsSerial f s n r turn memory desired found serial at written
Step-IsSerial f s _ serial (unlocks n r turn cycle at) =
    let name = (subst (Fits (scene_of f s) n) at (serial.1 n)).0.0 in
    unlocks-IsSerial f s r turn cycle serial (ap s.phase name ∙ at)
Step-IsSerial f s _ serial (reports n cycle at) = reports-IsSerial f s n cycle serial at

pub Reach-IsSerial : {f : Fleet} {s : Crew} → Reach true f s → IsSerial f s
Reach-IsSerial {f} start = start-IsSerial f
Reach-IsSerial {f} (later {s} {t} path step) = Step-IsSerial f s t (Reach-IsSerial path) step

-- However the steps of the runners interleave, whenever nobody holds the lock the cycles that are
-- through with the store and the fleet are those of the turns taken one after the other in the order
-- in which they gave back the lock or ended before it.
pub Reach-serial :
    (f : Fleet) (s : Crew)
    → Reach true f s
    → s.holder ≡ none
    → (s.log, s.fleet) ≡ take_turns f s.turns
Reach-serial f s path free =
    let ((log, runners), fits, shared, held) = Reach-IsSerial path in
    (λ i. (log i, record { runners = runners i; shared = shared free i }))

-- Two threads are never between the lock and the unlock at the same time.
pub Reach-exclusion :
    (f : Fleet) (s : Crew) (m n : Text)
    → Reach true f s
    → IsCritical (s.phase m)
    → IsCritical (s.phase n)
    → m ≡ n
Reach-exclusion f s m n path here there =
    let fits = (Reach-IsSerial path).1 in
    let mine = Fits-holder (scene_of f s) m (s.phase m) (fits m) here in
    let other = Fits-holder (scene_of f s) n (s.phase n) (fits n) there in cc

-- With a state store, a lock that the runners share and the stacks of a mapping file that is accepted, whatever the interleaving of
-- the runners' steps, when nobody holds the lock the cycles of a stack that are through with the store, its runner and its
-- snapshot are those of its own turns taken alone.
pub Reach-isolation :
    (c : Coordinator) (parse : Parser) (shared : State) (s : Crew) (n : Text)
    → c.has_state_store ≡ true
    → validate_mappings parse c.mappings ≡ success tt
    → c.has_state_lock ≡ true
    → Reach c.has_state_lock (started_fleet c shared) s
    → s.holder ≡ none
    → let alone = take_turns (started_fleet c shared) (turns_of n s.turns) in
      (own_log n s.log ≡ own_log n alone.0)
      × (lookup n s.fleet.runners ≡ lookup n alone.1.runners)
      × (lookup n s.fleet.shared.stacks ≡ lookup n alone.1.shared.stacks)
Reach-isolation c parse shared s n store accepted locked path free =
    let serial =
      Reach-serial (started_fleet c shared) s
        (subst (λ shares. Reach shares (started_fleet c shared) s) locked path) free in
    let (logs, runners, stacks) = started-isolation c parse shared s.turns n store accepted in
    (
      ap (λ (p : List (Text × Cycle) × Fleet). own_log n p.0) serial ∙ logs,
      ap (λ (p : List (Text × Cycle) × Fleet). lookup n p.1.runners) serial ∙ runners,
      ap (λ (p : List (Text × Cycle) × Fleet). lookup n p.1.shared.stacks) serial ∙ stacks,
    )
