-- ===== src/Coordinator/Ending.antt =====
-- Stop of internal/coordinator/coordinator.go returns.
use mathlib.Core.Path.{subst}
use swarm_sentinel.Base.{
  ℕ, Text, List, [], ◌∷◌, Bool, true, false, Bool-cases, ◌≡◌, ◌⊎◌, inr, refl, inl, inr, ◌+◌, ◌*◌,
  ◌<◌, length, length-append, arith,
}
use swarm_sentinel.Coordinator.Lifecycle.{
  Stage, idle, spawning, waiting, clearing, finished, Stop, unasked, has_read, awaits, returned,
  Life, LifeStep, starts, spawns, waits, exits, clears, closes, cancels_outside, reads, cancels,
  skips, returns, Lives,
}
use swarm_sentinel.Coordinator.Stopping.{FitsStage, HasBegun, FitsStop, Lives-IsSound}

-- What is left to do: each step is one of a number that shrinks.
abbrev stage_measure : ℕ → Stage → ℕ
stage_measure all idle = 2 * all + 4
stage_measure all (spawning ns) = 2 * length ns + 3
stage_measure all waiting = 2
stage_measure all clearing = 1
stage_measure all finished = 0

abbrev stop_measure : Stop → ℕ
stop_measure unasked = 3
stop_measure (has_read _) = 2
stop_measure awaits = 1
stop_measure (returned _) = 0

abbrev canceled_measure : Bool → ℕ
canceled_measure true = 0
canceled_measure false = 1

abbrev pub steps_left : List Text → Life → ℕ
steps_left mappings s =
    stage_measure (length mappings) s.stage
    + length s.active
    + canceled_measure s.canceled
    + stop_measure s.stop

module _ (mappings : List Text) (fails : Text → Bool) where
  LifeStep-steps_left :
      (s t : Life) → LifeStep mappings fails s t → steps_left mappings t < steps_left mappings s
  LifeStep-steps_left s _ (starts at) = rw at (omega arith)
  LifeStep-steps_left s _ (spawns n ns at) = rw at (omega arith)
  LifeStep-steps_left s _ (waits at) = rw at (omega arith)
  LifeStep-steps_left s _ (exits n xs ys here may) =
      rw (here, length-append xs (n ∷ ys), length-append xs ys) (omega arith)
  LifeStep-steps_left s _ (clears at none_left) = rw at (omega arith)
  LifeStep-steps_left s _ (closes at) = rw at (omega arith)
  LifeStep-steps_left s _ (cancels_outside not_yet) = rw not_yet (omega arith)
  LifeStep-steps_left s _ (reads at) = rw at (omega arith)
  LifeStep-steps_left s _ (cancels at) = elim (Bool-cases s.canceled) [
    | inl done ↦ rw (at, done) (omega arith)
    | inr pending ↦ rw (at, pending) (omega arith)
  ]
  LifeStep-steps_left s _ (skips at) = rw at (omega arith)
  LifeStep-steps_left s _ (returns at closed) = rw at (omega arith)

  abbrev CanGo : Life → Type 0
  CanGo s = (t : Life) × LifeStep mappings fails s t

  waiting-CanGo :
      (s : Life) (active : List Text)
      → s.stage ≡ waiting
      → s.active ≡ active
      → s.canceled ≡ true
      → CanGo s
  waiting-CanGo s [] at none_left canceled = (_, clears at none_left)
  waiting-CanGo s (n ∷ ns) at here canceled = (_, exits n [] ns here (inl canceled))

  stage-CanGo :
      (s : Life) (stage : Stage)
      → s.stage ≡ stage
      → (s.stop ≡ awaits) ⊎ (stage ≡ finished → ⊥)
      → FitsStage stage s.active s.closed
      → HasBegun stage
      → s.canceled ≡ true
      → CanGo s
  stage-CanGo s idle at goal fits begun canceled = absurd begun
  stage-CanGo s (spawning []) at goal fits begun canceled = (_, waits at)
  stage-CanGo s (spawning (n ∷ ns)) at goal fits begun canceled = (_, spawns n ns at)
  stage-CanGo s waiting at goal fits begun canceled = waiting-CanGo s s.active at refl canceled
  stage-CanGo s clearing at goal fits begun canceled = (_, closes at)
  stage-CanGo s finished at goal fits begun canceled = elim goal [
    | inl at_channel ↦ (_, returns at_channel fits.1)
    | inr unfinished ↦ absurd (unfinished refl)
  ]

-- Stop waits at the channel, or Run has been called, is not at its end, and its context is done.
abbrev pub IsEnding : Life → Type 0
IsEnding s = (s.stop ≡ awaits) ⊎ ((s.canceled ≡ true) × HasBegun s.stage × (s.stage ≡ finished → ⊥))

-- While Stop waits at the channel of a running coordinator, and while Run is under way with its context
-- done, some step of Run, of a goroutine or of Stop is possible, and every step whatever lowers the
-- number of the steps that are left.
pub Stop-returns :
    (mappings : List Text) (fails : Text → Bool) (s : Life)
    → Lives mappings fails s
    → IsEnding s
    → ((t : Life) × LifeStep mappings fails s t)
      × ((u v : Life) → LifeStep mappings fails u v → steps_left mappings v < steps_left mappings u)
Stop-returns mappings fails s lives ending =
    let (stage, stop) = Lives-IsSound mappings fails lives in
    (
      elim ending [
        | inl at ↦
            let fits = subst (λ p. FitsStop p s.stage s.canceled s.closed) at stop in
            stage-CanGo mappings fails s s.stage refl (inl at) stage fits.0 fits.1
        | inr (canceled, begun, unfinished) ↦
            stage-CanGo mappings fails s s.stage refl (inr unfinished) stage begun canceled
      ],
      LifeStep-steps_left mappings fails,
    )
