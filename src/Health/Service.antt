-- ===== src/Health/Service.antt =====
-- The verdict of evaluateService against a description of it that names each fault.
use swarm_sentinel.Base.{
  ℤ, pos, Text, text, text_eq, int_eq, List, [], ◌∷◌, Bool, not, ◌&&◌, ◌||◌, ◌==◌, is_nil, ◌≡◌,
  arith, ltb_ℤ, ltb_ℤ_irrefl, ltb_ℤ_eq, if◌then◌else◌,
}
use swarm_sentinel.Compose.Types.{DesiredService}
use swarm_sentinel.Swarm.Types.{ActualService}
use swarm_sentinel.Swarm.Image.{normalize_image}
use swarm_sentinel.Health.Types.{
  ServiceStatus, ok, failed, degraded, DriftDetail, status_eq, worsen_status,
}
use swarm_sentinel.Health.Evaluate.{
  check_image, check_replicas, update_in_progress, wanted_replicas, apply_drift, drift_status,
  evaluate_service,
}
use swarm_sentinel.Health.Drift.{subset, apply_drift-status, apply_drift-nil}

-- Replicas are wanted and none runs.
abbrev pub is_down : ℤ → ℤ → Bool
is_down wanted running = ltb_ℤ (pos 0) wanted && running == pos 0

-- Replicas are wanted and the count differs, with no update under way.
abbrev pub is_off_count : ℤ → ℤ → Bool → Bool
is_off_count wanted running updating =
    ltb_ℤ (pos 0) wanted && (not (running == wanted) && not updating)

-- A fault that fails the service: no replica of those wanted, or a config or secret missing.
abbrev pub is_critical : DesiredService → ActualService → Bool
is_critical d a =
    is_down (wanted_replicas d a) a.running_replicas
    || not (subset d.configs a.configs)
    || not (subset d.secrets a.secrets)

-- A fault that degrades it: another image, another replica count, a config or secret too many.
abbrev pub is_minor : DesiredService → ActualService → Bool
is_minor d a =
    not (normalize_image d.image == normalize_image a.image)
    || is_off_count (wanted_replicas d a) a.running_replicas (update_in_progress a.update_state)
    || not (subset a.configs d.configs)
    || not (subset a.secrets d.secrets)

check_replicas_lem :
    (wanted running : ℤ) (updating : Bool) (s : ServiceStatus) (rs : List Text)
    → ((check_replicas wanted running updating (s, rs)).0 ≡ (
        if is_down wanted running
        then worsen_status s failed
        else if is_off_count wanted running updating
        then worsen_status s degraded
        else s))
      × (is_nil (check_replicas wanted running updating (s, rs)).1 ≡ (
          is_nil rs
          && (not (is_down wanted running) && not (is_off_count wanted running updating))))
unfolding check_replicas
check_replicas_lem wanted running updating s [] =
    ground (arith, ltb_ℤ_irrefl wanted, ltb_ℤ_eq running wanted)
check_replicas_lem wanted running updating s (r ∷ rs) =
    ground (arith, ltb_ℤ_irrefl wanted, ltb_ℤ_eq running wanted)

-- The status that goes with the faults found so far: a critical one, a minor one.
abbrev verdict : Bool → Bool → ServiceStatus
verdict critical minor = if critical then failed else if minor then degraded else ok

fail_unless :
    (b critical minor : Bool)
    → (if b then verdict critical minor else worsen_status (verdict critical minor) failed)
      ≡ verdict (critical || not b) minor
fail_unless b critical minor = ground arith

degrade_unless :
    (b critical minor : Bool)
    → (if b then verdict critical minor else worsen_status (verdict critical minor) degraded)
      ≡ verdict critical (minor || not b)
degrade_unless b critical minor = ground arith

check_image_lem :
    (desired actual : Text)
    → ((check_image desired actual (ok, [])).0 ≡ (if desired == actual then ok else degraded))
      × (is_nil (check_image desired actual (ok, [])).1 ≡ (desired == actual))
unfolding check_image
check_image_lem desired actual = ground arith

-- A kind of reference, after faults of which the status and the reasons are known.
drift_verdict :
    (resource : Text) (desired actual : List Text) (rs : List Text) (ds : List DriftDetail)
    (s : ServiceStatus) (critical minor : Bool)
    → drift_status ds s ≡ verdict critical minor
    → drift_status (apply_drift (rs, ds) resource desired actual).1 s
      ≡ verdict (critical || not (subset desired actual)) (minor || not (subset actual desired))
drift_verdict resource desired actual rs ds s critical minor h =
    rw (apply_drift-status, h, fail_unless, degrade_unless)

module _ (name : Text) (d : DesiredService) (a : ActualService) where
  by_image : ServiceStatus × List Text
  by_image = check_image (normalize_image d.image) (normalize_image a.image) (ok, [])

  by_replicas : ServiceStatus × List Text
  by_replicas =
      check_replicas (wanted_replicas d a) a.running_replicas (update_in_progress a.update_state)
        by_image

  by_configs : List Text × List DriftDetail
  by_configs = apply_drift (by_replicas.1, []) (text "config") d.configs a.configs

  replicas_verdict :
      drift_status [] by_replicas.0
      ≡ verdict (is_down (wanted_replicas d a) a.running_replicas) (
          not (normalize_image d.image == normalize_image a.image)
          || is_off_count
              (wanted_replicas d a)
              a.running_replicas
              (update_in_progress a.update_state))
  unfolding by_replicas by_image drift_status
  replicas_verdict = ground (
    arith,
    check_image_lem (normalize_image d.image) (normalize_image a.image),
    check_replicas_lem (wanted_replicas d a) a.running_replicas (update_in_progress a.update_state)
        by_image.0 by_image.1,
  )

  pub evaluate_service-status :
      (evaluate_service name d a).status
      ≡ (if is_critical d a then failed else if is_minor d a then degraded else ok)
  unfolding evaluate_service by_image by_replicas by_configs
  evaluate_service-status =
      drift_verdict (text "secret") d.secrets a.secrets by_configs.0 by_configs.1 by_replicas.0 _ _
        (drift_verdict (text "config") d.configs a.configs by_replicas.1 [] by_replicas.0 _ _
          replicas_verdict)

  is_nil-reasons :
      is_nil (evaluate_service name d a).reasons ≡ (not (is_critical d a) && not (is_minor d a))
  unfolding evaluate_service by_image by_replicas by_configs
  is_nil-reasons = ground (
    arith,
    check_image_lem (normalize_image d.image) (normalize_image a.image),
    check_replicas_lem (wanted_replicas d a) a.running_replicas (update_in_progress a.update_state)
        by_image.0 by_image.1,
    apply_drift-nil (text "config") d.configs a.configs by_replicas.1 [],
    apply_drift-nil (text "secret") d.secrets a.secrets by_configs.0 by_configs.1,
  )

  -- The status is OK exactly if evaluateService gives no reason.
  pub evaluate_service-reasons :
      ((evaluate_service name d a).status == ok) ≡ is_nil (evaluate_service name d a).reasons
  evaluate_service-reasons = ground (arith, evaluate_service-status, is_nil-reasons)
