-- ===== src/Runner/Streak.antt =====
-- A known service that changes its status: when the change is reported, and when it is not.
use swarm_sentinel.Base.{
  ℕ, ◌+◌, ◌<◌, ◌^◌, suc, zero, pos, +ᵢ-pos, Text, List, [], ◌∷◌, ◌++◌, Option, some, true, false,
  All, length, ◌≡◌, ◌≢◌, ◌∙◌, ap, ap₂, arith,
}
use swarm_sentinel.Health.Types.{ServiceStatus, unset, ServiceHealth, StackHealth}
use swarm_sentinel.State.Types.{StackSnapshot}
use swarm_sentinel.Transition.Detect.{is_first_run, previous_status}
use swarm_sentinel.Runner.Stabilize.{
  effective_cycles, consecutive, last_notified, should_notify, observed, updated,
}
use swarm_sentinel.Runner.Alerts.{is_alert}
use swarm_sentinel.Runner.History.{
  alerts_for, Shows, replicate, known, alerts_for-cons, settled_silent,
}

-- The service has shown the status for `c` cycles, and the user knows of another one.
record Waits (base status : ServiceStatus) (c : ℕ) (p : ServiceHealth) : Type 0 where
  shown : p.status ≡ status
  streak : p.consecutive_cycles ≡ pos c
  started : 0 < c
  known_base : p.last_notified_status ≡ base

module _ (cycles : ℕ) (small : cycles < 2 ^ 63) (n : Text) (base status : ServiceStatus)
    (is_set : base ≢ unset) (differs : status ≢ base) where
  -- The last cycle that was asked for: the change is reported, and the service settles.
  last_step :
      (c : ℕ) (p s : ServiceHealth)
      → Waits base status c p
      → c + 1 ≡ cycles
      → s.status ≡ status
      → (is_alert (effective_cycles (pos cycles)) false (some p) status ≡ true)
        × (previous_status (updated (effective_cycles (pos cycles)) false (some p) s) ≡ status)
  unfolding previous_status updated observed should_notify last_notified consecutive
      effective_cycles
  last_step c p s w last e = ground (arith, w, +ᵢ-pos c 1)

  -- A cycle before that: nothing is reported, and the streak grows.
  wait_step :
      (c : ℕ) (p s : ServiceHealth)
      → Waits base status c p
      → c + 1 < cycles
      → s.status ≡ status
      → (is_alert (effective_cycles (pos cycles)) false (some p) status ≡ false)
        × Waits base status (c + 1) (updated (effective_cycles (pos cycles)) false (some p) s)
  unfolding previous_status updated observed should_notify last_notified consecutive
      effective_cycles
  wait_step c p s w more e = ground (arith, w, +ᵢ-pos c 1)

  -- The same two for the cycle in which the status changes.
  last_first_step :
      (p s : ServiceHealth)
      → previous_status p ≡ base
      → cycles ≡ 1
      → s.status ≡ status
      → (is_alert (effective_cycles (pos cycles)) false (some p) status ≡ true)
        × (previous_status (updated (effective_cycles (pos cycles)) false (some p) s) ≡ status)
  unfolding previous_status updated observed should_notify last_notified effective_cycles
  last_first_step p s b one e = ground arith

  wait_first_step :
      (p s : ServiceHealth)
      → previous_status p ≡ base
      → p.status ≢ status
      → 1 < cycles
      → s.status ≡ status
      → (is_alert (effective_cycles (pos cycles)) false (some p) status ≡ false)
        × Waits base status 1 (updated (effective_cycles (pos cycles)) false (some p) s)
  unfolding previous_status updated observed should_notify last_notified consecutive
      effective_cycles
  wait_first_step p s b changed more e = ground arith

  streak_alerts :
      (k : ℕ) (c : ℕ) (prev : Option StackSnapshot) (p : ServiceHealth) (hs : List StackHealth)
      (r : ℕ)
      → is_first_run prev ≡ false
      → known n prev ≡ some p
      → Waits base status c p
      → c + k + 1 ≡ cycles
      → length hs ≡ k + 1 + r
      → All (Shows n status) hs
      → alerts_for (pos cycles) n prev hs ≡ replicate k false ++ (true ∷ replicate r false)
  streak_alerts k c prev p [] r later found w sum len shows = absurd (omega arith)
  streak_alerts zero c prev p (h ∷ hs) r later found w sum len shows =
      let (next, s, e, found', later', flags) =
        alerts_for-cons (pos cycles) n status prev (some p) h hs later found shows.0 in
      let (loud, settled) = last_step c p s w (omega arith) e in
      let rest = settled_silent (pos cycles) n status hs next _ later' found' settled shows.1 in
      let all : length hs ≡ r = omega arith in
      flags ∙ ap₂ ◌∷◌ loud (rest ∙ ap (λ m. replicate m false) all)
  streak_alerts (suc k) c prev p (h ∷ hs) r later found w sum len shows =
      let (next, s, e, found', later', flags) =
        alerts_for-cons (pos cycles) n status prev (some p) h hs later found shows.0 in
      let (silent, w') = wait_step c p s w (omega arith) e in
      flags
      ∙ ap₂ ◌∷◌ silent
          (streak_alerts k (c + 1) next _ hs r later' found' w' (omega arith) (omega arith) shows.1)

  -- A known service that leaves the status that the user knows of is reported once: in the cycle in
  -- which the new status has lasted the cycles asked for, and not before or after while it lasts.
  pub change_alerts_once :
      (k : ℕ) (prev : Option StackSnapshot) (p : ServiceHealth) (hs : List StackHealth) (r : ℕ)
      → is_first_run prev ≡ false
      → known n prev ≡ some p
      → previous_status p ≡ base
      → p.status ≢ status
      → k + 1 ≡ cycles
      → length hs ≡ k + 1 + r
      → All (Shows n status) hs
      → alerts_for (pos cycles) n prev hs ≡ replicate k false ++ (true ∷ replicate r false)
  change_alerts_once k prev p [] r later found b changed sum len shows = absurd (omega arith)
  change_alerts_once zero prev p (h ∷ hs) r later found b changed sum len shows =
      let (next, s, e, found', later', flags) =
        alerts_for-cons (pos cycles) n status prev (some p) h hs later found shows.0 in
      let (loud, settled) = last_first_step p s b (omega arith) e in
      let rest = settled_silent (pos cycles) n status hs next _ later' found' settled shows.1 in
      let all : length hs ≡ r = omega arith in
      flags ∙ ap₂ ◌∷◌ loud (rest ∙ ap (λ m. replicate m false) all)
  change_alerts_once (suc k) prev p (h ∷ hs) r later found b changed sum len shows =
      let (next, s, e, found', later', flags) =
        alerts_for-cons (pos cycles) n status prev (some p) h hs later found shows.0 in
      let (silent, w) = wait_first_step p s b changed (omega arith) e in
      flags
      ∙ ap₂ ◌∷◌ silent
          (streak_alerts k 1 next _ hs r later' found' w (omega arith) (omega arith) shows.1)

  base_known : (c : ℕ) (p : ServiceHealth) → Waits base status c p → previous_status p ≡ base
  unfolding previous_status
  base_known c p w = ground (arith, w)

  streak_flap :
      (c : ℕ) (prev : Option StackSnapshot) (p : ServiceHealth) (hs back : List StackHealth)
      → is_first_run prev ≡ false
      → known n prev ≡ some p
      → Waits base status c p
      → c + length hs < cycles
      → All (Shows n status) hs
      → All (Shows n base) back
      → alerts_for (pos cycles) n prev (hs ++ back) ≡ replicate (length (hs ++ back)) false
  streak_flap c prev p [] back later found w few shows again =
      settled_silent (pos cycles) n base back prev p later found (base_known c p w) again
  streak_flap c prev p (h ∷ hs) back later found w few shows again =
      let (next, s, e, found', later', flags) =
        alerts_for-cons (pos cycles) n status prev (some p) h (hs ++ back) later found shows.0 in
      let (silent, w') = wait_step c p s w (omega arith) e in
      flags
      ∙ ap₂ ◌∷◌ silent
          (streak_flap (c + 1) next _ hs back later' found' w' (omega arith) shows.1 again)

  -- A known service that leaves the status that the user knows of for fewer cycles than asked for,
  -- and comes back to it, is not reported at all.
  pub flap_silent :
      (prev : Option StackSnapshot) (p : ServiceHealth) (h : StackHealth)
      (hs back : List StackHealth)
      → is_first_run prev ≡ false
      → known n prev ≡ some p
      → previous_status p ≡ base
      → p.status ≢ status
      → length (h ∷ hs) < cycles
      → All (Shows n status) (h ∷ hs)
      → All (Shows n base) back
      → alerts_for (pos cycles) n prev (h ∷ hs ++ back) ≡ replicate (length (h ∷ hs ++ back)) false
  flap_silent prev p h hs back later found b changed few shows again =
      let (next, s, e, found', later', flags) =
        alerts_for-cons (pos cycles) n status prev (some p) h (hs ++ back) later found shows.0 in
      let (silent, w) = wait_first_step p s b changed (omega arith) e in
      flags
      ∙ ap₂ ◌∷◌ silent (streak_flap 1 next _ hs back later' found' w (omega arith) shows.1 again)
