-- ===== src/Health/Drift.antt =====
-- What diffNames and applyDrift find, and what a drift list does to a status.
use swarm_sentinel.Base.{
  Text, text, text_eq, List, [], ◌∷◌, ◌++◌, Bool, true, not, ◌&&◌, contains, is_nil, ◌≡◌, ◌∙◌, refl,
  arith, if◌then◌else◌,
}
use swarm_sentinel.Base.Sort.{IsSorted, sort_by-IsSorted, contains-sort_texts, is_nil-sort_by}
use swarm_sentinel.Health.Types.{
  ServiceStatus, failed, degraded, DriftKind, missing, extra, extra_service, DriftDetail,
  worsen_status,
}
use swarm_sentinel.Health.Evaluate.{names_absent, diff_names, add_drift, apply_drift, drift_status}

contains-names_absent :
    (names set : List Text) (t : Text)
    → contains (names_absent names set) t ≡ (contains names t && not (contains set t))
unfolding names_absent
contains-names_absent [] set t = refl
contains-names_absent (n ∷ names) set t = ground (arith, contains-names_absent names set t)

-- Of two lists, diffNames returns the names of the first that the second lacks and the names of
-- the second that the first lacks, each in ascending order.
pub diff_names_lem :
    (desired actual : List Text) (t : Text)
    → (contains (diff_names desired actual).0 t ≡ (contains desired t && not (contains actual t)))
      × (contains (diff_names desired actual).1 t ≡ (contains actual t && not (contains desired t)))
      × IsSorted (λ x. x) (diff_names desired actual).0
      × IsSorted (λ x. x) (diff_names desired actual).1
unfolding diff_names
diff_names_lem desired actual t = (
  contains-sort_texts _ t ∙ contains-names_absent desired actual t,
  contains-sort_texts _ t ∙ contains-names_absent actual desired t,
  sort_by-IsSorted (λ x. x) (names_absent desired actual),
  sort_by-IsSorted (λ x. x) (names_absent actual desired),
)

-- Every name is in the set.
abbrev pub subset : List Text → List Text → Bool
subset [] set = true
subset (n ∷ names) set = contains set n && subset names set

is_nil-names_absent : (names set : List Text) → is_nil (names_absent names set) ≡ subset names set
unfolding names_absent
is_nil-names_absent [] set = refl
is_nil-names_absent (n ∷ names) set = ground (arith, is_nil-names_absent names set)

is_nil-diff_names :
    (desired actual : List Text)
    → (is_nil (diff_names desired actual).0 ≡ subset desired actual)
      × (is_nil (diff_names desired actual).1 ≡ subset actual desired)
unfolding diff_names
is_nil-diff_names desired actual = (
  is_nil-sort_by (λ x. x) _ ∙ is_nil-names_absent desired actual,
  is_nil-sort_by (λ x. x) _ ∙ is_nil-names_absent actual desired,
)

drift_status-append :
    (ds es : List DriftDetail) (s : ServiceStatus)
    → drift_status (ds ++ es) s ≡ drift_status es (drift_status ds s)
unfolding drift_status
drift_status-append [] es s = refl
drift_status-append (d ∷ ds) es s = drift_status-append ds es _

-- The loop of one kind keeps what was found and makes the status of that kind's names.
abbrev kind_status : DriftKind → ServiceStatus → ServiceStatus
kind_status missing s = worsen_status s failed
kind_status extra s = worsen_status s degraded
kind_status extra_service s = s

kind_status_twice :
    (k : DriftKind) (s : ServiceStatus) → kind_status k (kind_status k s) ≡ kind_status k s
kind_status_twice k s = ground arith

add_drift-status :
    (k : DriftKind) (w r : Text) (names : List Text) (rs : List Text) (ds : List DriftDetail)
    (s : ServiceStatus)
    → drift_status (add_drift k w r names (rs, ds)).1 s
      ≡ (if is_nil names then drift_status ds s else kind_status k (drift_status ds s))
unfolding add_drift
add_drift-status k w r [] rs ds s = refl
add_drift-status k w r (n ∷ names) rs ds s =
    add_drift-status k w r names _ _ s
    ∙ rw drift_status-append
        (unfold drift_status in ground (arith, kind_status_twice k (drift_status ds s)))

-- The reasons and the drift grow together.
add_drift-nil :
    (k : DriftKind) (w r : Text) (names : List Text) (rs : List Text) (ds : List DriftDetail)
    → is_nil (add_drift k w r names (rs, ds)).0 ≡ (is_nil rs && is_nil names)
unfolding add_drift
add_drift-nil k w r [] rs ds = ground arith
add_drift-nil k w r (n ∷ names) [] ds = add_drift-nil k w r names _ _
add_drift-nil k w r (n ∷ names) (t ∷ rs) ds = add_drift-nil k w r names _ _

module _ (resource : Text) (desired actual : List Text) where
  pub apply_drift-status :
      (rs : List Text) (ds : List DriftDetail) (s : ServiceStatus)
      → drift_status (apply_drift (rs, ds) resource desired actual).1 s ≡ (
          let t =
            if subset desired actual
            then drift_status ds s
            else worsen_status (drift_status ds s) failed in
          if subset actual desired then t else worsen_status t degraded)
  unfolding apply_drift
  apply_drift-status rs ds s =
      let absent = (diff_names desired actual).0 in
      let found = add_drift missing (text "missing") resource absent (rs, ds) in
      ground (
        arith,
        is_nil-diff_names desired actual,
        add_drift-status missing (text "missing") resource absent rs ds s,
        add_drift-status extra (text "extra") resource (diff_names desired actual).1 found.0 found.1
            s,
      )

  pub apply_drift-nil :
      (rs : List Text) (ds : List DriftDetail)
      → is_nil (apply_drift (rs, ds) resource desired actual).0
        ≡ (is_nil rs && (subset desired actual && subset actual desired))
  unfolding apply_drift
  apply_drift-nil rs ds =
      let absent = (diff_names desired actual).0 in
      let found = add_drift missing (text "missing") resource absent (rs, ds) in
      ground (
        arith,
        is_nil-diff_names desired actual,
        add_drift-nil missing (text "missing") resource absent rs ds,
        add_drift-nil extra (text "extra") resource (diff_names desired actual).1 found.0 found.1,
      )
