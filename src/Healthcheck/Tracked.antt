-- ===== src/Healthcheck/Tracked.antt =====
-- What cycles leave in the tracker that they share: RunOnce of internal/runner/runner.go with the
-- tracker of internal/healthcheck.
use mathlib.Core.List.{append-nil}
use swarm_sentinel.Base.{
  ℕ, ◌<◌, ◌^◌, ℤ, pos, leb_ℤ, text_eq, List, [], ◌∷◌, ◌++◌, Option, none, some, Option-cases, All,
  true, not, is_nil, inl, inr, Result-cases, ◌≡◌, ◌∙◌, sym, ap, refl, arith, if◌then◌else◌,
}
use swarm_sentinel.Base.Dict.{lookup}
use swarm_sentinel.Compose.Types.{DesiredState}
use swarm_sentinel.Health.Evaluate.{evaluate_stack_health}
use swarm_sentinel.Runner.Stabilize.{stabilize_transitions}
use swarm_sentinel.Runner.Types.{
  Settings, Memory, Store, World, Effect, saved, services_total, alerts_total, docker_api_error,
  notified, cycle_recorded, cycle_observed, CycleError, Cycle,
}
use swarm_sentinel.Runner.Cycle.{
  stack_key, record_metrics, notify_transitions, with_snapshot, evaluate_and_persist, evaluate_step,
  default_run_once, cycle_records, run_once,
}
use swarm_sentinel.Runner.Effects.{
  All-append, IsLax, record_metrics-All, notify_transitions-All, default_run_once-All,
}
use swarm_sentinel.Healthcheck.Tracker.{
  Tracker, new_tracker, record_cycle, health_handler, ready_handler,
}
use swarm_sentinel.Healthcheck.Answers.{
  Recorded, record_all, last_recorded, ready_status, health_status, body_of, handlers-last,
}

-- A cycle of some runner, with the time at its end and how long it took.
pub record TimedCycle : Type 0 where
  pub settings : Settings
  pub world : World
  pub memory : Memory
  pub time : ℕ
  pub duration : ℤ

abbrev pub cycle_at : TimedCycle → Cycle
cycle_at c = run_once c.settings c.world c.memory

-- The calls of RecordCycle among the effects of a cycle.
unfoldable pub track_effects : ℤ → ℤ → List Effect → Tracker → Tracker
unfolding record_cycle
track_effects now duration [] t = t
track_effects now duration (cycle_recorded stacks ∷ es) t =
    track_effects now duration es (record_cycle now duration stacks t)
track_effects now duration (_ ∷ es) t = track_effects now duration es t

-- The tracker after these cycles.
unfoldable pub track_cycles : List TimedCycle → Tracker → Tracker
unfolding run_once track_effects
track_cycles [] t = t
track_cycles (c ∷ cs) t =
    track_cycles cs (track_effects (pos c.time) c.duration (cycle_at c).effects t)

-- The cycles that ended without an error, as they are to be recorded.
abbrev pub recorded_of : TimedCycle → Recorded
recorded_of c = record {
  time = c.time;
  duration = c.duration;
  stacks = if leb_ℤ c.settings.stacks_evaluated (pos 0) then pos 1 else c.settings.stacks_evaluated;
}

abbrev pub if_fine : Option CycleError → Recorded → List Recorded → List Recorded
if_fine none r rs = r ∷ rs
if_fine (some e) r rs = rs

abbrev pub successes : List TimedCycle → List Recorded
successes [] = []
successes (c ∷ cs) = if_fine (cycle_at c).error (recorded_of c) (successes cs)

-- The effect is no call of RecordCycle.
abbrev Untracked : Effect → Type 0
Untracked (cycle_recorded _) = ⊥
Untracked e = Unit

Untracked-IsLax : IsLax Untracked
Untracked-IsLax = record {
  counts = λ stack status n. tt;
  alerts = λ stack severity. tt;
  api_errors = tt;
  notices = λ stack ts. tt;
}

module _ (settings : Settings) (world : World) where
  evaluate_and_persist-Untracked :
      (memory : Memory) (desired : DesiredState) (store : Store)
      → All Untracked (evaluate_and_persist settings world memory desired store).0
  unfolding evaluate_and_persist
  evaluate_and_persist-Untracked memory desired store = elim (Result-cases store.load) [
    | inr (e, failed) ↦ rw (failed, evaluate_and_persist) tt
    | inl (loaded, found) ↦
        let key = stack_key settings.stack_name in
        let health =
          evaluate_stack_health desired memory.last_actual_state
            (not (is_nil settings.stack_name)) in
        let stable =
          stabilize_transitions settings.alert_stabilization_cycles (lookup key loaded.stacks)
            health in
        elim (Option-cases
          (store.save (with_snapshot key memory.compose_hash world.now stable.0 loaded))) [
            | inr (e, failed) ↦ rw (found, failed, evaluate_and_persist) tt
            | inl stored ↦
                rw (found, stored, evaluate_and_persist)
                  (
                    tt,
                    All-append Untracked (record_metrics settings.has_metrics key health stable.1)
                        (notify_transitions world.notify key stable.1)
                        (record_metrics-All Untracked Untracked-IsLax settings.has_metrics key
                          health stable.1)
                        (notify_transitions-All Untracked Untracked-IsLax world.notify key
                          stable.1),
                  )
          ]
  ]

  evaluate_step-Untracked :
      (memory : Memory) → All Untracked (evaluate_step settings world memory).effects
  unfolding evaluate_step
  evaluate_step-Untracked memory = elim (Option-cases world.store) [
    | inl without ↦ rw (without, evaluate_step) tt
    | inr (store, with) ↦ elim (Option-cases memory.last_desired_state) [
      | inl without ↦ rw (with, without, evaluate_step) tt
      | inr (desired, known) ↦
          rw (with, known, evaluate_step) (evaluate_and_persist-Untracked memory desired store)
    ]
  ]

track_effects-append :
    (now duration : ℤ) (es fs : List Effect) (t : Tracker)
    → All Untracked es
    → track_effects now duration (es ++ fs) t ≡ track_effects now duration fs t
unfolding track_effects
track_effects-append now duration [] fs t h = refl
track_effects-append now duration (e ∷ es) fs t (here, h) =
    track_effects_skip e now duration (es ++ fs) t here
    ∙ track_effects-append now duration es fs t h
  where
    track_effects_skip :
        (e : Effect) (now duration : ℤ) (es : List Effect) (t : Tracker)
        → Untracked e
        → track_effects now duration (e ∷ es) t ≡ track_effects now duration es t
    track_effects_skip (cycle_recorded stacks) now duration es t h = absurd h
    track_effects_skip (saved next) now duration es t h = refl
    track_effects_skip (services_total a b c) now duration es t h = refl
    track_effects_skip (alerts_total a b) now duration es t h = refl
    track_effects_skip docker_api_error now duration es t h = refl
    track_effects_skip (notified a b) now duration es t h = refl
    track_effects_skip cycle_observed now duration es t h = refl

track_effects-nil : (now duration : ℤ) (t : Tracker) → track_effects now duration [] t ≡ t
unfolding track_effects
track_effects-nil now duration t = refl

cycle_records_tracked :
    (c : TimedCycle) (t : Tracker)
    → c.settings.has_cycle_tracker ≡ true
    → track_effects (pos c.time) c.duration (cycle_records c.settings) t
      ≡ record_cycle (pos c.time) c.duration (recorded_of c).stacks t
unfolding track_effects cycle_records
cycle_records_tracked c t tracked = ground arith

-- What one cycle leaves in the tracker: its record if it ended without an error, and else nothing.
track_cycle :
    (c : TimedCycle) (t : Tracker)
    → c.settings.has_cycle_tracker ≡ true
    → track_effects (pos c.time) c.duration (cycle_at c).effects t
      ≡ record_all (if_fine (cycle_at c).error (recorded_of c) []) t
unfolding run_once
track_cycle c t tracked =
    let own = default_run_once c.settings c.world c.memory in
    let quiet =
      default_run_once-All Untracked Untracked-IsLax c.settings c.world
        (evaluate_step-Untracked c.settings c.world) c.memory in
    let outcome = λ (o : Option CycleError). record_all (if_fine o (recorded_of c) []) t in
    elim (Option-cases own.error) [
      | inl fine ↦
          rw (fine, run_once)
            (track_effects-append (pos c.time) c.duration own.effects (cycle_records c.settings) t
                quiet
              ∙ cycle_records_tracked c t tracked
              ∙ ap outcome (sym fine))
      | inr (e, failed) ↦
          rw (failed, run_once)
            (ap (λ es. track_effects (pos c.time) c.duration es t) (sym (append-nil own.effects))
              ∙ track_effects-append (pos c.time) c.duration own.effects [] t quiet
              ∙ track_effects-nil (pos c.time) c.duration t
              ∙ ap outcome (sym failed))
    ]

record_all-if_fine :
    (o : Option CycleError) (r : Recorded) (rs : List Recorded) (t : Tracker)
    → record_all rs (record_all (if_fine o r []) t) ≡ record_all (if_fine o r rs) t
record_all-if_fine none r rs t = refl
record_all-if_fine (some e) r rs t = refl

track_cycles-successes :
    (cs : List TimedCycle) (t : Tracker)
    → All (λ c. c.settings.has_cycle_tracker ≡ true) cs
    → track_cycles cs t ≡ record_all (successes cs) t
unfolding track_cycles
track_cycles-successes [] t h = refl
track_cycles-successes (c ∷ cs) t (tracked, h) =
    let error = (cycle_at c).error in
    ap (track_cycles cs) (track_cycle c t tracked)
    ∙ track_cycles-successes cs (record_all (if_fine error (recorded_of c) []) t) h
    ∙ record_all-if_fine error (recorded_of c) (successes cs) t

if_fine-All :
    (P : Recorded → Type 0) (o : Option CycleError) (r : Recorded) (rs : List Recorded)
    → P r
    → All P rs
    → All P (if_fine o r rs)
if_fine-All P none r rs here h = (here, h)
if_fine-All P (some e) r rs here h = h

successes_in_time :
    (cs : List TimedCycle)
    → All (λ c. c.time < 2 ^ 63) cs
    → All (λ (r : Recorded). r.time < 2 ^ 63) (successes cs)
successes_in_time [] h = tt
successes_in_time (c ∷ cs) (early, h) =
    if_fine-All (λ r. r.time < 2 ^ 63) (cycle_at c).error (recorded_of c) (successes cs) early
      (successes_in_time cs h)

-- After any cycles of runners that share a tracker, of one stack or of many, both endpoints answer with
-- the details of the last cycle that ended without an error; the others leave no trace. /readyz
-- answers 200 exactly if there is such a cycle, and /healthz exactly if it lies no more than two poll
-- intervals back. The poll interval is above 0 and below 2^62 nanoseconds, and times are below 2^63.
pub handlers-track_cycles :
    (cycles : List TimedCycle) (now poll : ℕ)
    → 0 < poll
    → poll < 2 ^ 62
    → now < 2 ^ 63
    → All (λ c. c.time < 2 ^ 63) cycles
    → All (λ c. c.settings.has_cycle_tracker ≡ true) cycles
    → let t = some (track_cycles cycles new_tracker) in
      let last = last_recorded (successes cycles) in
      (ready_handler t ≡ record { status = ready_status last; body = body_of last })
      × (health_handler (pos poll) t (pos now)
          ≡ record { status = health_status now poll last; body = body_of last })
handlers-track_cycles cycles now poll positive small early past tracked =
    rw (track_cycles-successes cycles new_tracker tracked) (
      handlers-last (successes cycles) now poll positive small early
        (successes_in_time cycles past))
