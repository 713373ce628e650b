-- ===== src/Notify/Limits.antt =====
-- The timing and the rate limiters of internal/notify/http_poster.go: newHTTPPoster, getLimiter and
-- waitForRateLimit. The limiter of package rate is a parameter.
use swarm_sentinel.Base.{
  ℕ, Text, text_eq, List, [], ◌∷◌, Option, none, some, Result, success, failure, ◌≡◌, ◌+◌, ◌≤◌,
}
use swarm_sentinel.Base.Dict.{Dict, lookup, insert}

-- timingConfig, in nanoseconds
pub record TimingConfig : Type 0 where
  pub timeout : ℕ
  pub rate_interval : ℕ
  pub rate_burst : ℕ
  pub backoff_max_elapsed : ℕ
  pub backoff_max : ℕ
  pub backoff_initial : ℕ

abbrev pub default_timing : TimingConfig
default_timing = record {
  timeout = 10_000_000_000;
  rate_interval = 1_000_000_000;
  rate_burst = 1;
  backoff_max_elapsed = 30_000_000_000;
  backoff_max = 10_000_000_000;
  backoff_initial = 1_000_000_000;
}

-- rate.NewLimiter of rate.Every, and Wait as it is called at a time: when it returns, or its error, and
-- the limiter after that.
pub record RateLimiting : Type 1 where
  pub Limiter : Type 0
  pub new_limiter : ℕ → ℕ → Limiter
  pub wait : Limiter → ℕ → Result Text ℕ × Limiter

-- What package rate documents of a limiter with a burst of one, by its interval and the last time at
-- which it let an event through.
pub record IsPaced (p : RateLimiting) : Type 0 where
  pub interval : p.Limiter → ℕ
  pub last : p.Limiter → Option ℕ
  pub begins : (i : ℕ) → (interval (p.new_limiter i 1) ≡ i) × (last (p.new_limiter i 1) ≡ none)
  pub lets_through :
      (l : p.Limiter) (now t : ℕ)
      → (p.wait l now).0 ≡ success t
      → (now ≤ t)
        × ((u : ℕ) → last l ≡ some u → u + interval l ≤ t)
        × (last (p.wait l now).1 ≡ some t)
        × (interval (p.wait l now).1 ≡ interval l)
  pub gives_up :
      (l : p.Limiter) (now : ℕ) (e : Text)
      → (p.wait l now).0 ≡ failure e
      → (last (p.wait l now).1 ≡ last l) × (interval (p.wait l now).1 ≡ interval l)

module _ (p : RateLimiting) where
  -- The fields of httpPoster that the limiting reads.
  pub record HttpPoster : Type 0 where
    pub timing : TimingConfig
    pub limiters : Dict Text p.Limiter

  unfoldable pub new_http_poster : TimingConfig → HttpPoster
  new_http_poster timing = record { timing = timing; limiters = [] }

  unfoldable pub get_limiter : Text → HttpPoster → p.Limiter × HttpPoster
  unfolding lookup insert
  get_limiter stack n = elim (lookup stack n.limiters) [
    | some limiter ↦ (limiter, n)
    | none ↦
        let limiter = p.new_limiter n.timing.rate_interval n.timing.rate_burst in
        (limiter, record n { limiters = insert stack limiter n.limiters })
  ]

  -- The map holds a pointer to the limiter, so that what Wait changes is seen in it.
  unfoldable pub wait_for_rate_limit : Text → ℕ → HttpPoster → Result Text ℕ × HttpPoster
  unfolding get_limiter insert
  wait_for_rate_limit stack now n =
      let (limiter, found) = get_limiter stack n in
      let (result, waited) = p.wait limiter now in
      (result, record found { limiters = insert stack waited found.limiters })

  -- The calls of several posts, each with its stack and its time.
  unfoldable pub wait_all : List (Text × ℕ) → HttpPoster → List (Text × Result Text ℕ) × HttpPoster
  unfolding wait_for_rate_limit
  wait_all [] n = ([], n)
  wait_all ((stack, now) ∷ calls) n =
      let (result, waited) = wait_for_rate_limit stack now n in
      let (results, end) = wait_all calls waited in ((stack, result) ∷ results, end)
