-- ===== src/Metrics/Published.antt =====
-- What the collectors of internal/metrics/metrics.go show after the runners' updates.
use swarm_sentinel.Base.{
  ℤ, pos, Text, text_eq, nat_eq, List, [], ◌∷◌, some, ◌≡◌, ◌∙◌, ap, refl, arith, Result, success,
  ◌>>=◌, true, All, length, inl, inr,
}
use swarm_sentinel.Runner.Types.{
  saved, services_total, alerts_total, docker_api_error, notified, cycle_recorded, cycle_observed,
}
use swarm_sentinel.Metrics.Client.{
  HaveDistinctNames, Describes, Prometheus, IsDocumented, is_valid, IsUtf8, View, blank, with_gauge,
  with_count, with_observed, gauge, counter, histogram,
}
use swarm_sentinel.Metrics.Collectors.{
  Timed, Metrics, collectors, services_total_name, alerts_total_name, docker_api_errors_total,
  last_successful_cycle_timestamp, cycle_duration_seconds, new_metrics, publish, publish_all,
  observe_cycle_duration, set_services_total, inc_alerts_total, inc_docker_api_errors,
  set_last_successful_cycle_timestamp,
}

collectors-HaveDistinctNames : HaveDistinctNames collectors
unfolding text_eq nat_eq
collectors-HaveDistinctNames = ground arith

collectors-is_valid : All (λ d. is_valid d ≡ true) collectors
unfolding is_valid text_eq nat_eq
collectors-is_valid = (refl, (refl, (refl, (refl, (refl, tt)))))

-- The values of the labels of an update are valid UTF-8: the name of its stack, and the status or the
-- severity.
abbrev pub HasUtf8Labels : Timed → Type 0
HasUtf8Labels t = elim t.effect [
  | services_total stack status n ↦ IsUtf8 stack × IsUtf8 status
  | alerts_total stack severity ↦ IsUtf8 stack × IsUtf8 severity
  | _ ↦ Unit
]

module _ (p : Prometheus) where
  -- The registry with the collectors of New shows this.
  abbrev pub Shows : View p.Float → p.Registry → Type 0
  Shows view r = (p.described r ≡ collectors) × (p.shows r ≡ view)

  -- The call does not panic, and leaves a registry that shows this.
  abbrev pub Comes : View p.Float → Result Text (Metrics p) → Type 0
  Comes view result = (r : p.Registry) × (result ≡ success (some r)) × Shows view r

  -- What an update is to do to the view.
  unfoldable pub shown : Timed → View p.Float → View p.Float
  shown t view = elim t.effect [
    | saved _ ↦ view
    | services_total stack status n ↦
        with_gauge services_total_name (stack ∷ status ∷ []) (p.float64 (pos n)) view
    | alerts_total stack severity ↦ with_count alerts_total_name (stack ∷ severity ∷ []) view
    | docker_api_error ↦ with_count docker_api_errors_total [] view
    | notified _ _ ↦ view
    | cycle_recorded _ ↦ view
    | cycle_observed ↦
        with_gauge last_successful_cycle_timestamp [] (p.float64 t.ended_at)
          (with_observed cycle_duration_seconds (p.seconds t.duration) view)
  ]

  unfoldable pub shown_all : List Timed → View p.Float → View p.Float
  unfolding shown
  shown_all [] view = view
  shown_all (t ∷ ts) view = shown_all ts (shown t view)

  module _ (documented : IsDocumented p) where
    set-Comes :
        (name : Text) (labels : List Text) (value : p.Float) (r : p.Registry) (view : View p.Float)
        → Describes gauge name (length labels) collectors
        → All IsUtf8 labels
        → Shows view r
        → Comes
            (with_gauge name labels value view)
            (p.set name labels value r >>= λ s. success (some s))
    set-Comes name labels value r view described utf8 (same, shows) =
        let (s, done, same', shows') =
          documented.sets name labels value r (rw same described) utf8 in
        (s, rw done refl, (same' ∙ same, shows' ∙ ap (with_gauge name labels value) shows))

    inc-Comes :
        (name : Text) (labels : List Text) (r : p.Registry) (view : View p.Float)
        → Describes counter name (length labels) collectors
        → All IsUtf8 labels
        → Shows view r
        → Comes (with_count name labels view) (p.inc name labels r >>= λ s. success (some s))
    inc-Comes name labels r view described utf8 (same, shows) =
        let (s, done, same', shows') =
          documented.increments name labels r (rw same described) utf8 in
        (s, rw done refl, (same' ∙ same, shows' ∙ ap (with_count name labels) shows))

    observe-Comes :
        (name : Text) (value : p.Float) (r : p.Registry) (view : View p.Float)
        → Describes histogram name 0 collectors
        → Shows view r
        → Comes (with_observed name value view) (p.observe name value r >>= λ s. success (some s))
    observe-Comes name value r view described (same, shows) =
        let (s, done, same', shows') = documented.observes name value r (rw same described) in
        (s, rw done refl, (same' ∙ same, shows' ∙ ap (with_observed name value) shows))

    cycle_observed-Comes :
        (duration ended_at : ℤ) (r : p.Registry) (view : View p.Float)
        → Shows view r
        → Comes
            (with_gauge last_successful_cycle_timestamp []
              (p.float64 ended_at)
              (with_observed cycle_duration_seconds (p.seconds duration) view))
            (observe_cycle_duration p duration (some r) >>= λ m.
              set_last_successful_cycle_timestamp p ended_at m)
    unfolding observe_cycle_duration set_last_successful_cycle_timestamp
    cycle_observed-Comes duration ended_at r view shows =
        let (s, done, shows') =
          observe-Comes cycle_duration_seconds (p.seconds duration) r view (inl (refl, refl, refl))
            shows in
        rw done (
          set-Comes last_successful_cycle_timestamp [] (p.float64 ended_at) s
            (with_observed cycle_duration_seconds (p.seconds duration) view)
            (inr (inr (inr (inr (inl (refl, refl, refl)))))) tt shows')

    publish-Comes :
        (t : Timed) (r : p.Registry) (view : View p.Float)
        → HasUtf8Labels t
        → Shows view r
        → Comes (shown t view) (publish p t (some r))
    unfolding shown publish set_services_total inc_alerts_total inc_docker_api_errors
    publish-Comes t r view utf8 shows =
        elim t.effect
            as (λ e.
              HasUtf8Labels (record t { effect = e })
              → Comes (shown (record t { effect = e }) view)
                  (publish p (record t { effect = e }) (some r))) [
                    | saved _ ↦ λ utf8. (r, refl, shows)
                    | services_total stack status n ↦ λ utf8.
                        set-Comes services_total_name (stack ∷ status ∷ []) (p.float64 (pos n)) r
                          view (inr (inl (refl, refl, refl))) (utf8.0, (utf8.1, tt)) shows
                    | alerts_total stack severity ↦ λ utf8.
                        inc-Comes alerts_total_name (stack ∷ severity ∷ []) r view
                          (inr (inr (inl (refl, refl, refl)))) (utf8.0, (utf8.1, tt)) shows
                    | docker_api_error ↦ λ utf8.
                        inc-Comes docker_api_errors_total [] r view
                          (inr (inr (inr (inl (refl, refl, refl))))) tt shows
                    | notified _ _ ↦ λ utf8. (r, refl, shows)
                    | cycle_recorded _ ↦ λ utf8. (r, refl, shows)
                    | cycle_observed ↦
                        λ utf8. cycle_observed-Comes t.duration t.ended_at r view shows
                  ]
          utf8

    pub publish_all-Comes :
        (ts : List Timed) (r : p.Registry) (view : View p.Float)
        → All HasUtf8Labels ts
        → Shows view r
        → Comes (shown_all ts view) (publish_all p ts (some r))
    unfolding shown_all publish_all
    publish_all-Comes [] r view utf8 shows = (r, refl, shows)
    publish_all-Comes (t ∷ ts) r view utf8 shows =
        let (s, done, shows') = publish-Comes t r view utf8.0 shows in
        rw done (publish_all-Comes ts s (shown t view) utf8.1 shows')

    pub new_metrics-Comes : Comes blank (new_metrics p)
    unfolding new_metrics
    new_metrics-Comes =
        let (r, done, same, shows) =
          documented.registers collectors collectors-HaveDistinctNames collectors-is_valid in
        (r, rw done refl, (same, shows))
