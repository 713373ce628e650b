-- ===== src/Runner/Errors.antt =====
-- The error paths of a cycle, and the loop that goes on after them.
use swarm_sentinel.Base.{
  text_eq, List, [], ◌∷◌, ◌++◌, some, Option-cases, Bool, true, false, inl, inr, All, ◌||◌, ◌≡◌,
  refl, arith,
}
use swarm_sentinel.Runner.Types.{CycleError, Settings, Memory, World, Effect, saved}
use swarm_sentinel.Runner.Cycle.{
  evaluate_and_persist, evaluate_step, collect_actual, default_run_once, cycle_records, run_once,
}
use swarm_sentinel.Runner.Persist.{
  is_saved, is_notified, evaluate_and_persist-saved, evaluate_and_persist-failed,
}

-- Nothing of these effects reaches the store or the notifier.
abbrev pub IsQuiet : List Effect → Type 0
IsQuiet = All (λ e. (is_saved e ≡ false) × (is_notified e ≡ false))

module _ (settings : Settings) (world : World) where
  evaluate_step-failed :
      (memory : Memory) {e : CycleError}
      → (evaluate_step settings world memory).error ≡ some e
      → IsQuiet (evaluate_step settings world memory).effects
  unfolding evaluate_step
  evaluate_step-failed memory {e} h = elim (Option-cases world.store) [
    | inl without ↦ rw (without, evaluate_step) tt
    | inr (store, with) ↦ elim (Option-cases memory.last_desired_state) [
      | inl without ↦ rw (with, without, evaluate_step) tt
      | inr (desired, known) ↦
          elim (Option-cases (evaluate_and_persist settings world memory desired store).1) [
            | inl fine ↦ absurd (ground arith)
            | inr (cause, failed) ↦
                rw
                  (
                    with,
                    known,
                    evaluate_and_persist-failed settings world memory desired store cause failed,
                    evaluate_step,
                  )
                  tt
          ]
    ]
  ]

  collect_actual-failed :
      (memory : Memory) {e : CycleError}
      → (collect_actual settings world memory).error ≡ some e
      → IsQuiet (collect_actual settings world memory).effects
  unfolding collect_actual
  collect_actual-failed memory h = grind (arith, evaluate_step-failed)

  -- A cycle that ends in an error has saved nothing and notified nobody.
  pub run_once-failed :
      (memory : Memory) {e : CycleError}
      → (run_once settings world memory).error ≡ some e
      → IsQuiet (run_once settings world memory).effects
  unfolding run_once default_run_once
  run_once-failed memory h = grind (arith, collect_actual-failed)

abbrev pub notifies : List Effect → Bool
notifies [] = false
notifies (e ∷ es) = is_notified e || notifies es

abbrev pub saves_first : List Effect → Bool
saves_first [] = false
saves_first (e ∷ es) = is_saved e

saves_first-append :
    (es more : List Effect)
    → notifies more ≡ false
    → (notifies es ≡ true → saves_first es ≡ true)
    → notifies (es ++ more) ≡ true
    → saves_first (es ++ more) ≡ true
saves_first-append [] more quiet h n = cc
saves_first-append (saved _ ∷ es) more quiet h n = refl
saves_first-append (e ∷ es) more quiet h n = h (ground (arith, notifies-append es more quiet))
  where
    notifies-append :
        (es more : List Effect) → notifies more ≡ false → notifies (es ++ more) ≡ notifies es
    notifies-append [] more q = q
    notifies-append (e ∷ es) more q = ground (arith, notifies-append es more q)

module _ (settings : Settings) (world : World) where
  evaluate_step-order :
      (memory : Memory)
      → notifies (evaluate_step settings world memory).effects ≡ true
      → saves_first (evaluate_step settings world memory).effects ≡ true
  unfolding evaluate_step
  evaluate_step-order memory h = elim (Option-cases world.store) [
    | inl without ↦ absurd (ground arith)
    | inr (store, with) ↦ elim (Option-cases memory.last_desired_state) [
      | inl without ↦ absurd (ground arith)
      | inr (desired, known) ↦
          elim (Option-cases (evaluate_and_persist settings world memory desired store).1) [
            | inl fine ↦
                let persisted =
                  evaluate_and_persist-saved settings world memory desired store fine in
                rw (with, known, evaluate_step, persisted.4.0) refl
            | inr (cause, failed) ↦
                let nothing =
                  evaluate_and_persist-failed settings world memory desired store cause failed in
                absurd (ground arith)
          ]
    ]
  ]

  collect_actual-order :
      (memory : Memory)
      → notifies (collect_actual settings world memory).effects ≡ true
      → saves_first (collect_actual settings world memory).effects ≡ true
  unfolding collect_actual
  collect_actual-order memory h = grind (arith, evaluate_step-order)

  default_run_once-order :
      (memory : Memory)
      → notifies (default_run_once settings world memory).effects ≡ true
      → saves_first (default_run_once settings world memory).effects ≡ true
  unfolding default_run_once
  default_run_once-order memory h = grind (arith, collect_actual-order)

  records_quiet : notifies (cycle_records settings) ≡ false
  unfolding cycle_records
  records_quiet = ground arith

  -- A cycle that notifies has saved the state before anything else.
  pub run_once-order :
      (memory : Memory)
      → notifies (run_once settings world memory).effects ≡ true
      → saves_first (run_once settings world memory).effects ≡ true
  unfolding run_once
  run_once-order memory h = elim (Option-cases (default_run_once settings world memory).error) [
    | inr (e, failed) ↦
        rw (failed, run_once) (default_run_once-order memory (rw (failed, run_once) at h))
    | inl fine ↦
        rw (fine, run_once)
          (saves_first-append (default_run_once settings world memory).effects
            (cycle_records settings) records_quiet (default_run_once-order memory)
            (rw (fine, run_once) at h))
  ]
