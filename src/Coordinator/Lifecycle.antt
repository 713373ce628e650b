-- ===== src/Coordinator/Lifecycle.antt =====
-- Run and Stop of internal/coordinator/coordinator.go with the goroutines of the runners, step by step:
-- one call of Run and one of Stop, which another goroutine makes at any time.
use swarm_sentinel.Base.{Text, List, [], ◌∷◌, ◌++◌, Bool, true, false, ◌≡◌, ◌⊎◌}

-- Where Run is: not called, starting the goroutines of these stacks, at wg.Wait, in its deferred
-- function between the unlock and the close, or at its end.
pub data Stage : Type 0 where
  idle : Stage
  spawning : List Text → Stage
  waiting : Stage
  clearing : Stage
  finished : Stage

-- Where Stop is: not called, past its RUnlock with or without a cancel and a done channel, at the
-- channel, or at its end, again with or without them.
pub data Stop : Type 0 where
  unasked : Stop
  has_read : Bool → Stop
  awaits : Stop
  returned : Bool → Stop

-- The goroutines that have not called wg.Done, whether the context of the runners is done, and whether
-- the done channel is closed.
pub record Life : Type 0 where
  pub stage : Stage
  pub active : List Text
  pub canceled : Bool
  pub closed : Bool
  pub stop : Stop

-- Run has set c.cancel and c.done and has not cleared them yet.
unfoldable pub has_fields : Stage → Bool
has_fields idle = false
has_fields (spawning _) = true
has_fields waiting = true
has_fields clearing = false
has_fields finished = false

abbrev pub unborn : Life
unborn = record { stage = idle; active = []; canceled = false; closed = false; stop = unasked }

-- The steps, over the names of the mappings. A goroutine ends once its context is done, or before if
-- its runner `fails`: spawnRunner cannot make it, or its Run returns an error.
pub data LifeStep (mappings : List Text) (fails : Text → Bool) (s : Life) : Life → Type 0 where
  starts : s.stage ≡ idle → LifeStep mappings fails s (record s { stage = spawning mappings })
  spawns :
      (n : Text) (ns : List Text)
      → s.stage ≡ spawning (n ∷ ns)
      → LifeStep mappings fails s (record s { stage = spawning ns; active = n ∷ s.active })
  waits : s.stage ≡ spawning [] → LifeStep mappings fails s (record s { stage = waiting })
  exits :
      (n : Text) (xs ys : List Text)
      → s.active ≡ xs ++ (n ∷ ys)
      → (s.canceled ≡ true) ⊎ (fails n ≡ true)
      → LifeStep mappings fails s (record s { active = xs ++ ys })
  clears :
      s.stage ≡ waiting → s.active ≡ [] → LifeStep mappings fails s (record s { stage = clearing })
  closes :
      s.stage ≡ clearing → LifeStep mappings fails s (record s { stage = finished; closed = true })
  -- The context of Run is done.
  cancels_outside : s.canceled ≡ false → LifeStep mappings fails s (record s { canceled = true })
  reads :
      s.stop ≡ unasked
      → LifeStep mappings fails s (record s { stop = has_read (has_fields s.stage) })
  cancels :
      s.stop ≡ has_read true
      → LifeStep mappings fails s (record s { canceled = true; stop = awaits })
  skips : s.stop ≡ has_read false → LifeStep mappings fails s (record s { stop = returned false })
  returns :
      s.stop ≡ awaits
      → s.closed ≡ true
      → LifeStep mappings fails s (record s { stop = returned true })

pub data Lives (mappings : List Text) (fails : Text → Bool) : Life → Type 0 where
  born : Lives mappings fails unborn
  goes :
      {s t : Life} → Lives mappings fails s → LifeStep mappings fails s t → Lives mappings fails t
