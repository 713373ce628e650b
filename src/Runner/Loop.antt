-- ===== src/Runner/Loop.antt =====
-- The loop of Run: it ends with the context, and no error of a cycle ends it before.
use swarm_sentinel.Base.{
  pos, List, [], ◌∷◌, Bool, true, false, leb_ℤ, success, failure, ◌≡◌, refl, arith, if◌then◌else◌,
}
use swarm_sentinel.Runner.Types.{Settings, Memory, World, Cycle, bad_interval}
use swarm_sentinel.Runner.Cycle.{run_once, Wake, tick, done, run_loop, run}

abbrev pub is_done : List Wake → Bool
is_done [] = false
is_done (done ∷ wakes) = true
is_done (tick w ∷ wakes) = is_done wakes

-- Each cycle starts from the memory that the one before left.
abbrev pub IsChained : Settings → Memory → List Cycle → List World → Type 0
IsChained settings memory [] [] = Unit
IsChained settings memory (c ∷ cs) (w ∷ ws) =
    (c ≡ run_once settings w memory) × IsChained settings c.memory cs ws
IsChained settings memory _ _ = ⊥

-- The worlds of the ticks before the context is done.
abbrev pub worlds : List Wake → List World
worlds [] = []
worlds (done ∷ wakes) = []
worlds (tick w ∷ wakes) = w ∷ worlds wakes

run_loop-IsChained :
    (settings : Settings) (wakes : List Wake) (memory : Memory)
    → IsChained settings memory (run_loop settings wakes memory).0 (worlds wakes)
      × ((run_loop settings wakes memory).1 ≡ is_done wakes)
unfolding run_loop
run_loop-IsChained settings [] memory = (tt, refl)
run_loop-IsChained settings (done ∷ wakes) memory = (tt, refl)
run_loop-IsChained settings (tick w ∷ wakes) memory =
    let rest = run_loop-IsChained settings wakes (run_once settings w memory).memory in
    ((refl, rest.0), rest.1)

-- With a poll interval above 0, Run makes one cycle at once and one for each tick until the context
-- is done, each from the memory of the one before, whether or not cycles fail; and it returns if
-- and only if the context is done. With any other interval it fails at once.
pub run_lem :
    (settings : Settings) (world : World) (wakes : List Wake) (memory : Memory)
    → (cycles : List Cycle) × (run settings world wakes memory ≡ (
        if leb_ℤ settings.poll_interval (pos 0)
        then failure bad_interval
        else success (cycles, is_done wakes)))
      × IsChained settings memory cycles (world ∷ worlds wakes)
unfolding run
run_lem settings world wakes memory =
    let first = run_once settings world memory in
    let rest = run_loop-IsChained settings wakes first.memory in
    (first ∷ (run_loop settings wakes first.memory).0, ground (arith, rest), (refl, rest.0))
