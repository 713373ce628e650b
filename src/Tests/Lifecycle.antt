-- ===== src/Tests/Lifecycle.antt =====
-- A coordinator of one stack that is stopped.
use swarm_sentinel.Base.{Text, text, List, [], ◌∷◌, Bool, true, false, ◌≡◌, ◌<◌, refl, inl}
use swarm_sentinel.Coordinator.Lifecycle.{
  Life, finished, waiting, awaits, returned, has_fields, LifeStep, starts, spawns, waits, exits,
  clears, closes, reads, cancels, returns, Lives, born, goes,
}
use swarm_sentinel.Coordinator.Stopping.{Stop-returned}
use swarm_sentinel.Coordinator.Ending.{steps_left, Stop-returns}

abbrev one : List Text
one = text "shop" ∷ []

abbrev never : Text → Bool
never n = false

abbrev asked : Life
asked = record { stage = waiting; active = one; canceled = true; closed = false; stop = awaits }

asked-Lives : Lives one never asked
unfolding has_fields
asked-Lives =
    goes
      (goes (goes (goes (goes born (starts refl)) (spawns (text "shop") [] refl)) (waits refl))
        (reads refl))
      (cancels refl)

abbrev stopped : Life
stopped = record {
  stage = finished;
  active = [];
  canceled = true;
  closed = true;
  stop = returned true;
}

stopped-Lives : Lives one never stopped
stopped-Lives =
    goes
      (goes (goes (goes asked-Lives (exits (text "shop") [] [] refl (inl refl))) (clears refl refl))
        (closes refl))
      (returns refl refl)

Stop-returned_example :
    (stopped.stage ≡ finished) × (stopped.active ≡ []) × (stopped.canceled ≡ true)
Stop-returned_example = Stop-returned one never stopped stopped-Lives refl

Stop-returns_example :
    ((t : Life) × LifeStep one never asked t)
    × ((u v : Life) → LifeStep one never u v → steps_left one v < steps_left one u)
Stop-returns_example = Stop-returns one never asked asked-Lives (inl refl)
