-- ===== src/Runner/History.antt =====
-- Alerts over several cycles: each cycle of internal/runner/runner.go starts from the services that
-- the one before it persisted.
use swarm_sentinel.Base.{
  ℕ, suc, zero, ℤ, pos, leb_ℤ, Text, text_eq, List, [], ◌∷◌, Option, none, some, is_some, Bool,
  false, All, length, ◌≡◌, ◌∙◌, refl, ap, ap₂, arith,
}
use swarm_sentinel.Base.Dict.{Dict, lookup, NodupKeys}
use swarm_sentinel.Health.Types.{ServiceStatus, ServiceHealth, StackHealth, status_eq}
use swarm_sentinel.State.Types.{StackSnapshot}
use swarm_sentinel.Transition.Detect.{prev_services, is_first_run, previous_status}
use swarm_sentinel.Transition.Laws.{transition_of}
use swarm_sentinel.Runner.Stabilize.{
  effective_cycles, consecutive, last_notified, should_notify, observed, updated,
  stabilize_transitions,
}
use swarm_sentinel.Runner.Alerts.{
  is_alert, stabilize_transitions-updated, stabilize_transitions-alerts,
}

-- The snapshot that a cycle persists. Alerts do not read its fingerprint and time.
abbrev pub snapshot_of : Dict Text ServiceHealth → StackSnapshot
snapshot_of services = record { desired_fingerprint = []; services = services; evaluated_at = 0 }

-- For each cycle, whether the service is reported.
unfoldable pub alerts_for : ℤ → Text → Option StackSnapshot → List StackHealth → List Bool
alerts_for cycles n prev [] = []
alerts_for cycles n prev (h ∷ hs) =
    let (kept, transitions) = stabilize_transitions cycles prev h in
    is_some (transition_of n transitions) ∷ alerts_for cycles n (some (snapshot_of kept)) hs

-- The service is evaluated with this status.
abbrev pub Shows : Text → ServiceStatus → StackHealth → Type 0
Shows n status h =
    NodupKeys h.services
    × ((s : ServiceHealth) × (lookup n h.services ≡ some s) × (s.status ≡ status))

abbrev pub replicate {ℓ} : {A : Type ℓ} → ℕ → A → List A
replicate zero a = []
replicate (suc n) a = a ∷ replicate n a

lookup-nil_first :
    (n : Text) (m : Dict Text ServiceHealth) {s : ServiceHealth}
    → lookup n m ≡ some s
    → is_first_run (some (snapshot_of m)) ≡ false
unfolding lookup is_first_run prev_services
lookup-nil_first n [] e = cc
lookup-nil_first n (x ∷ m) e = refl

-- The service as the snapshot has it.
abbrev pub known : Text → Option StackSnapshot → Option ServiceHealth
known n prev = lookup n (prev_services prev)

module _ (cycles : ℤ) (n : Text) (status : ServiceStatus) where
  -- One cycle after the first run, for a service that is evaluated.
  pub alerts_for-cons :
      (prev : Option StackSnapshot) (old : Option ServiceHealth) (h : StackHealth)
      (hs : List StackHealth)
      → is_first_run prev ≡ false
      → known n prev ≡ old
      → Shows n status h
      → (next : Option StackSnapshot) × (s : ServiceHealth) × (s.status ≡ status)
        × (known n next ≡ some (updated (effective_cycles cycles) false old s))
        × (is_first_run next ≡ false)
        × (alerts_for cycles n prev (h ∷ hs)
            ≡ is_alert (effective_cycles cycles) false old status ∷ alerts_for cycles n next hs)
  unfolding alerts_for prev_services
  alerts_for-cons prev old h hs later is_old (u, (s, found, e)) =
      let kept = (stabilize_transitions cycles prev h).0 in
      let persisted : lookup n kept ≡ some (updated (effective_cycles cycles) false old s) =
        stabilize_transitions-updated cycles prev h u n ∙ rw (found, later, is_old) in
      let alert : is_some (transition_of n (stabilize_transitions cycles prev h).1)
          ≡ is_alert (effective_cycles cycles) false old status =
        ground (arith, (stabilize_transitions-alerts cycles prev h u n).0) in
      (
        some (snapshot_of kept),
        s,
        e,
        persisted,
        lookup-nil_first n kept persisted,
        ap (λ b. b ∷ alerts_for cycles n (some (snapshot_of kept)) hs) alert,
      )

  settled_step :
      (p s : ServiceHealth)
      → previous_status p ≡ status
      → s.status ≡ status
      → (is_alert (effective_cycles cycles) false (some p) status ≡ false)
        × (previous_status (updated (effective_cycles cycles) false (some p) s) ≡ status)
  unfolding previous_status updated observed should_notify last_notified
  settled_step p s settled e = ground arith

  -- A service whose status is the one that the user knows of stays silent.
  pub settled_silent :
      (hs : List StackHealth) (prev : Option StackSnapshot) (p : ServiceHealth)
      → is_first_run prev ≡ false
      → known n prev ≡ some p
      → previous_status p ≡ status
      → All (Shows n status) hs
      → alerts_for cycles n prev hs ≡ replicate (length hs) false
  unfolding alerts_for
  settled_silent [] prev p later found settled shows = refl
  settled_silent (h ∷ hs) prev p later found settled shows =
      let (next, s, e, found', later', flags) =
        alerts_for-cons prev (some p) h hs later found shows.0 in
      let (silent, settled') = settled_step p s settled e in
      flags ∙ ap₂ ◌∷◌ silent (settled_silent hs next _ later' found' settled' shows.1)

  new_step :
      (s : ServiceHealth)
      → leb_ℤ (effective_cycles cycles) (pos 1) ≡ false
      → s.status ≡ status
      → (is_alert (effective_cycles cycles) false none status ≡ false)
        × (previous_status (updated (effective_cycles cycles) false none s) ≡ status)
  unfolding previous_status updated observed should_notify last_notified consecutive
  new_step s two e = ground arith

  -- A service that is new after the first run is taken for known as soon as it is persisted: with
  -- two or more cycles of stabilisation it is never reported while it keeps its first status,
  -- FAILED included.
  pub new_service_silent :
      (prev : Option StackSnapshot) (hs : List StackHealth)
      → is_first_run prev ≡ false
      → known n prev ≡ none
      → leb_ℤ (effective_cycles cycles) (pos 1) ≡ false
      → All (Shows n status) hs
      → alerts_for cycles n prev hs ≡ replicate (length hs) false
  unfolding alerts_for
  new_service_silent prev [] later absent two shows = refl
  new_service_silent prev (h ∷ hs) later absent two shows =
      let (next, s, e, found, later', flags) =
        alerts_for-cons prev none h hs later absent shows.0 in
      let (silent, settled) = new_step s two e in
      flags ∙ ap₂ ◌∷◌ silent (settled_silent hs next _ later' found settled shows.1)
