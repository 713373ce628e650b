-- ===== src/Metrics/Readings.antt =====
-- What the collectors of internal/metrics/metrics.go show, read off the log of the runners' updates.
use mathlib.Core.List.{append_assoc, append-nil, map-append}
use mathlib.Core.Option
use swarm_sentinel.Base.{
  pos, Text, text_eq, nat_eq, List, [], ◌∷◌, ◌++◌, map, Option, none, some, ◌≡◌, ◌∙◌, sym, ap, ◌+◌,
  refl, arith, All, success, ◌>>=◌,
}
use swarm_sentinel.Runner.Types.{
  saved, services_total, alerts_total, docker_api_error, notified, cycle_recorded, cycle_observed,
}
use swarm_sentinel.Metrics.Client.{Prometheus, IsDocumented, View, blank}
use swarm_sentinel.Metrics.Collectors.{
  Timed, services_total_name, alerts_total_name, docker_api_errors_total,
  last_successful_cycle_timestamp, cycle_duration_seconds, new_metrics, publish_all,
}
use swarm_sentinel.Metrics.Totals.{
  end_in, duration_in, services_in, alerts_in, api_errors_in, or_else, last_services, alerts_of,
  api_errors_of, last_end, durations,
}
use swarm_sentinel.Metrics.Published.{
  HasUtf8Labels, shown, shown_all, publish_all-Comes, new_metrics-Comes,
}

or_else-none {ℓ} : {A : Type ℓ} (a : Option A) → or_else a none ≡ a
or_else-none (some a) = refl
or_else-none none = refl

module _ (p : Prometheus) where
  shown-services :
      (stack status : Text) (t : Timed) (view : View p.Float)
      → (shown p t view).gauges services_total_name (stack ∷ status ∷ [])
        ≡ or_else
            (Option.map (λ n. p.float64 (pos n)) (services_in stack status t.effect))
            (view.gauges services_total_name (stack ∷ status ∷ []))
  unfolding shown text_eq nat_eq
  shown-services stack status t view =
      elim t.effect
        as (λ e.
          (shown p (record t { effect = e }) view).gauges services_total_name (stack ∷ status ∷ [])
          ≡ or_else (Option.map (λ n. p.float64 (pos n)) (services_in stack status e))
              (view.gauges services_total_name (stack ∷ status ∷ []))) [
                | saved _ ↦ refl
                | services_total a b n ↦ ground arith
                | alerts_total a b ↦ refl
                | docker_api_error ↦ refl
                | notified _ _ ↦ refl
                | cycle_recorded _ ↦ refl
                | cycle_observed ↦ refl
              ]

  shown-alerts :
      (stack severity : Text) (t : Timed) (view : View p.Float)
      → (shown p t view).counts alerts_total_name (stack ∷ severity ∷ [])
        ≡ view.counts alerts_total_name (stack ∷ severity ∷ []) + alerts_in stack severity t.effect
  unfolding shown text_eq nat_eq
  shown-alerts stack severity t view =
      elim t.effect
        as (λ e.
          (shown p (record t { effect = e }) view).counts alerts_total_name (stack ∷ severity ∷ [])
          ≡ view.counts alerts_total_name (stack ∷ severity ∷ []) + alerts_in stack severity e) [
            | saved _ ↦ omega arith
            | services_total a b n ↦ omega arith
            | alerts_total a b ↦ ground arith
            | docker_api_error ↦ omega arith
            | notified _ _ ↦ omega arith
            | cycle_recorded _ ↦ omega arith
            | cycle_observed ↦ omega arith
          ]

  shown_all-services :
      (stack status : Text) (ts : List Timed) (view : View p.Float)
      → (shown_all p ts view).gauges services_total_name (stack ∷ status ∷ [])
        ≡ or_else
            (Option.map (λ n. p.float64 (pos n)) (last_services stack status ts))
            (view.gauges services_total_name (stack ∷ status ∷ []))
  unfolding shown_all last_services
  shown_all-services stack status [] view = refl
  shown_all-services stack status (t ∷ ts) view =
      shown_all-services stack status ts (shown p t view)
      ∙ ground (arith, shown-services stack status t view)

  shown_all-alerts :
      (stack severity : Text) (ts : List Timed) (view : View p.Float)
      → (shown_all p ts view).counts alerts_total_name (stack ∷ severity ∷ [])
        ≡ view.counts alerts_total_name (stack ∷ severity ∷ []) + alerts_of stack severity ts
  unfolding shown_all alerts_of
  shown_all-alerts stack severity [] view = omega arith
  shown_all-alerts stack severity (t ∷ ts) view = omega (
    arith,
    shown_all-alerts stack severity ts (shown p t view),
    shown-alerts stack severity t view,
  )

  shown-api_errors :
      (t : Timed) (view : View p.Float)
      → (shown p t view).counts docker_api_errors_total []
        ≡ view.counts docker_api_errors_total [] + api_errors_in t.effect
  unfolding shown text_eq nat_eq
  shown-api_errors t view =
      elim t.effect
        as (λ e.
          (shown p (record t { effect = e }) view).counts docker_api_errors_total []
          ≡ view.counts docker_api_errors_total [] + api_errors_in e) [
            | saved _ ↦ omega arith
            | services_total a b n ↦ omega arith
            | alerts_total a b ↦ omega arith
            | docker_api_error ↦ omega arith
            | notified _ _ ↦ omega arith
            | cycle_recorded _ ↦ omega arith
            | cycle_observed ↦ omega arith
          ]

  shown_all-api_errors :
      (ts : List Timed) (view : View p.Float)
      → (shown_all p ts view).counts docker_api_errors_total []
        ≡ view.counts docker_api_errors_total [] + api_errors_of ts
  unfolding shown_all api_errors_of
  shown_all-api_errors [] view = omega arith
  shown_all-api_errors (t ∷ ts) view =
      omega (arith, shown_all-api_errors ts (shown p t view), shown-api_errors t view)

  shown-end :
      (t : Timed) (view : View p.Float)
      → (shown p t view).gauges last_successful_cycle_timestamp []
        ≡ or_else (Option.map p.float64 (end_in t)) (view.gauges last_successful_cycle_timestamp [])
  unfolding shown text_eq nat_eq
  shown-end t view =
      elim t.effect
        as (λ e.
          (shown p (record t { effect = e }) view).gauges last_successful_cycle_timestamp []
          ≡ or_else (Option.map p.float64 (end_in (record t { effect = e })))
              (view.gauges last_successful_cycle_timestamp [])) [
                | saved _ ↦ refl
                | services_total a b n ↦ refl
                | alerts_total a b ↦ refl
                | docker_api_error ↦ refl
                | notified _ _ ↦ refl
                | cycle_recorded _ ↦ refl
                | cycle_observed ↦ refl
              ]

  shown_all-end :
      (ts : List Timed) (view : View p.Float)
      → (shown_all p ts view).gauges last_successful_cycle_timestamp []
        ≡ or_else
            (Option.map p.float64 (last_end ts))
            (view.gauges last_successful_cycle_timestamp [])
  unfolding shown_all last_end
  shown_all-end [] view = refl
  shown_all-end (t ∷ ts) view = shown_all-end ts (shown p t view) ∙ ground (arith, shown-end t view)

  shown-durations :
      (t : Timed) (view : View p.Float)
      → (shown p t view).observed cycle_duration_seconds
        ≡ map p.seconds (duration_in t) ++ view.observed cycle_duration_seconds
  unfolding shown text_eq nat_eq
  shown-durations t view =
      elim t.effect
        as (λ e.
          (shown p (record t { effect = e }) view).observed cycle_duration_seconds
          ≡ map p.seconds (duration_in (record t { effect = e }))
            ++ view.observed cycle_duration_seconds) [
              | saved _ ↦ refl
              | services_total a b n ↦ refl
              | alerts_total a b ↦ refl
              | docker_api_error ↦ refl
              | notified _ _ ↦ refl
              | cycle_recorded _ ↦ refl
              | cycle_observed ↦ refl
            ]

  shown_all-durations :
      (ts : List Timed) (view : View p.Float)
      → (shown_all p ts view).observed cycle_duration_seconds
        ≡ map p.seconds (durations ts) ++ view.observed cycle_duration_seconds
  unfolding shown_all durations
  shown_all-durations [] view = refl
  shown_all-durations (t ∷ ts) view =
      shown_all-durations ts (shown p t view)
      ∙ ap (map p.seconds (durations ts) ++◌) (shown-durations t view)
      ∙ sym (
          append_assoc (map p.seconds (durations ts)) (map p.seconds (duration_in t))
            (view.observed cycle_duration_seconds))
      ∙ ap (λ l. l ++ view.observed cycle_duration_seconds)
          (sym (map-append p.seconds (durations ts) (duration_in t)))

-- From New on no update panics whose values of labels are valid UTF-8, and after any such updates the
-- collectors show the last numbers of services by stack and status, the numbers of alerts by stack and severity and of errors of the Docker
-- API, and the durations and the last end of the successful cycles.
pub publish_all_lem :
    (p : Prometheus) (documented : IsDocumented p) (ts : List Timed)
    → All HasUtf8Labels ts
    → (r : p.Registry) × ((new_metrics p >>= λ m. publish_all p ts m) ≡ success (some r))
      × ((stack status : Text)
          → (p.shows r).gauges services_total_name (stack ∷ status ∷ [])
            ≡ Option.map (λ n. p.float64 (pos n)) (last_services stack status ts))
      × ((stack severity : Text)
          → (p.shows r).counts alerts_total_name (stack ∷ severity ∷ [])
            ≡ alerts_of stack severity ts)
      × ((p.shows r).counts docker_api_errors_total [] ≡ api_errors_of ts)
      × ((p.shows r).observed cycle_duration_seconds ≡ map p.seconds (durations ts))
      × ((p.shows r).gauges last_successful_cycle_timestamp [] ≡ Option.map p.float64 (last_end ts))
publish_all_lem p documented ts utf8 =
    let (r, made, shows) = new_metrics-Comes p documented in
    let (s, done, (described, view)) = publish_all-Comes p documented ts r blank utf8 shows in
    (
      s,
      rw made done,
      λ stack status.
          ap (λ (v : View p.Float). v.gauges services_total_name (stack ∷ status ∷ [])) view
          ∙ shown_all-services p stack status ts blank
          ∙ or_else-none _,
      λ stack severity.
          ap (λ (v : View p.Float). v.counts alerts_total_name (stack ∷ severity ∷ [])) view
          ∙ shown_all-alerts p stack severity ts blank
          ∙ omega arith,
      ap (λ (v : View p.Float). v.counts docker_api_errors_total []) view
          ∙ shown_all-api_errors p ts blank
          ∙ omega arith,
      ap (λ (v : View p.Float). v.observed cycle_duration_seconds) view
          ∙ shown_all-durations p ts blank
          ∙ append-nil _,
      ap (λ (v : View p.Float). v.gauges last_successful_cycle_timestamp []) view
          ∙ shown_all-end p ts blank
          ∙ or_else-none _,
    )
