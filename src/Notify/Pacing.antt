-- ===== src/Notify/Pacing.antt =====
-- The posts of a stack keep the interval of the limiter: getLimiter and waitForRateLimit of
-- internal/notify/http_poster.go.
use mathlib.Core.Path.{subst}
use swarm_sentinel.Base.{
  ℕ, Text, text_eq, List, [], ◌∷◌, Option, none, some, Option-cases, Bool-cases, Result, success,
  failure, Result-cases, inl, inr, ◌==◌, ==_iff, ◌≡◌, ◌∙◌, sym, ap, refl, ◌+◌, ◌≤◌, arith,
  if◌then◌else◌, false,
}
use swarm_sentinel.Base.Dict.{lookup, lookup-insert}
use swarm_sentinel.Notify.Limits.{
  TimingConfig, RateLimiting, IsPaced, HttpPoster, new_http_poster, get_limiter,
  wait_for_rate_limit, wait_all,
}

-- The times at which posts of the stack are let through.
abbrev passes : Result Text ℕ → List ℕ → List ℕ
passes (success t) ts = t ∷ ts
passes (failure e) ts = ts

abbrev pub passes_of : Text → List (Text × Result Text ℕ) → List ℕ
passes_of stack [] = []
passes_of stack ((m, result) ∷ results) =
    if m == stack then passes result (passes_of stack results) else passes_of stack results

-- Each time is at least the interval after the one before, the first one after `last`, if any.
abbrev pub AreSpaced : ℕ → Option ℕ → List ℕ → Type 0
AreSpaced i last [] = Unit
AreSpaced i none (t ∷ ts) = AreSpaced i (some t) ts
AreSpaced i (some u) (t ∷ ts) = (u + i ≤ t) × AreSpaced i (some t) ts

module _ (p : RateLimiting) (paced : IsPaced p) where
  -- The limiter of the stack, if there is one yet, has let its last post through then.
  abbrev LastAt : ℕ → Option ℕ → Option p.Limiter → Type 0
  LastAt i last none = last ≡ none
  LastAt i last (some l) = (paced.interval l ≡ i) × (paced.last l ≡ last)

  get_limiter-LastAt :
      (stack : Text) (n : HttpPoster p) (last : Option ℕ)
      → n.timing.rate_burst ≡ 1
      → LastAt n.timing.rate_interval last (lookup stack n.limiters)
      → LastAt n.timing.rate_interval last (some (get_limiter p stack n).0)
  unfolding get_limiter
  get_limiter-LastAt stack n last burst at = elim (Option-cases (lookup stack n.limiters)) [
    | inl missing ↦
        let fresh = subst (LastAt n.timing.rate_interval last) missing at in
        let (interval, never) = paced.begins n.timing.rate_interval in
        rw (missing, burst, get_limiter) (interval, never ∙ sym fresh)
    | inr (l, found) ↦ rw (found, get_limiter) (subst (LastAt n.timing.rate_interval last) found at)
  ]

  spaced-from :
      (i : ℕ) (last : Option ℕ) (t : ℕ) (ts : List ℕ)
      → ((u : ℕ) → last ≡ some u → u + i ≤ t)
      → AreSpaced i (some t) ts
      → AreSpaced i last (t ∷ ts)
  spaced-from i none t ts after spaced = spaced
  spaced-from i (some u) t ts after spaced = (after u refl, spaced)

  wait_for_rate_limit-timing :
      (stack : Text) (now : ℕ) (n : HttpPoster p)
      → (wait_for_rate_limit p stack now n).1.timing ≡ n.timing
  unfolding wait_for_rate_limit get_limiter
  wait_for_rate_limit-timing stack now n = ground arith

  get_limiter-other :
      (m stack : Text) (n : HttpPoster p)
      → (m == stack) ≡ false
      → lookup m (get_limiter p stack n).1.limiters ≡ lookup m n.limiters
  unfolding get_limiter
  get_limiter-other m stack n other = ground (
    arith,
    lookup-insert m stack (p.new_limiter n.timing.rate_interval n.timing.rate_burst) n.limiters,
  )

  wait_for_rate_limit-lookup :
      (m stack : Text) (now : ℕ) (n : HttpPoster p)
      → lookup m (wait_for_rate_limit p stack now n).1.limiters ≡ (
          if m == stack then some (p.wait (get_limiter p stack n).0 now).1 else lookup m n.limiters)
  unfolding wait_for_rate_limit
  wait_for_rate_limit-lookup m stack now n = elim (Bool-cases (m == stack)) [
    | inl same ↦ lookup-insert m stack _ _ ∙ rw same refl
    | inr other ↦ lookup-insert m stack _ _ ∙ rw other (get_limiter-other m stack n other)
  ]

  passes_of-own :
      (stack : Text) (now : ℕ) (calls : List (Text × ℕ)) (n : HttpPoster p)
      → passes_of stack (wait_all p ((stack, now) ∷ calls) n).0
        ≡ passes
            (p.wait (get_limiter p stack n).0 now).0
            (passes_of stack (wait_all p calls (wait_for_rate_limit p stack now n).1).0)
  unfolding wait_all wait_for_rate_limit
  passes_of-own stack now calls n = rw ((==_iff stack stack).1 refl) refl

  -- A call for this stack, and then the others.
  own-AreSpaced :
      (stack : Text) (now : ℕ) (calls : List (Text × ℕ)) (n : HttpPoster p) (last : Option ℕ)
      → n.timing.rate_burst ≡ 1
      → LastAt n.timing.rate_interval last (lookup stack n.limiters)
      → let next = (wait_for_rate_limit p stack now n).1 in
        ((last' : Option ℕ)
          → LastAt n.timing.rate_interval last' (lookup stack next.limiters)
          → AreSpaced n.timing.rate_interval last' (passes_of stack (wait_all p calls next).0))
        → AreSpaced n.timing.rate_interval last
            (passes_of stack (wait_all p ((stack, now) ∷ calls) n).0)
  own-AreSpaced stack now calls n last burst at rest =
      let l = (get_limiter p stack n).0 in
      let (interval, before) = get_limiter-LastAt stack n last burst at in
      let stands : lookup stack (wait_for_rate_limit p stack now n).1.limiters
          ≡ some (p.wait l now).1 =
        wait_for_rate_limit-lookup stack stack now n ∙ rw ((==_iff stack stack).1 refl) refl in
      elim (Result-cases (p.wait l now).0) [
        | inl (t, passed) ↦
            let (in_time, after, last_is, interval_is) = paced.lets_through l now t passed in
            let spaced = rest (some t) (
              subst (LastAt n.timing.rate_interval (some t)) (sym stands)
                (interval_is ∙ interval, last_is)) in
            subst (AreSpaced n.timing.rate_interval last)
              (sym (
                passes_of-own stack now calls n
                ∙ ap
                    (λ r.
                      passes r (
                        passes_of stack (wait_all p calls (wait_for_rate_limit p stack now n).1).0))
                    passed))
              (spaced-from n.timing.rate_interval last t _
                (λ u is. subst (λ i. u + i ≤ t) interval (after u (before ∙ is))) spaced)
        | inr (e, failed) ↦
            let (last_is, interval_is) = paced.gives_up l now e failed in
            let spaced = rest last (
              subst (LastAt n.timing.rate_interval last) (sym stands)
                (interval_is ∙ interval, last_is ∙ before)) in
            subst (AreSpaced n.timing.rate_interval last)
              (sym (
                passes_of-own stack now calls n
                ∙ ap
                    (λ r.
                      passes r (
                        passes_of stack (wait_all p calls (wait_for_rate_limit p stack now n).1).0))
                    failed))
              spaced
      ]

  passes_of-other :
      (m stack : Text) (now : ℕ) (calls : List (Text × ℕ)) (n : HttpPoster p)
      → (stack == m) ≡ false
      → passes_of m (wait_all p ((stack, now) ∷ calls) n).0
        ≡ passes_of m (wait_all p calls (wait_for_rate_limit p stack now n).1).0
  unfolding wait_all wait_for_rate_limit
  passes_of-other m stack now calls n other = rw other refl

  wait_all-AreSpaced :
      (m : Text) (calls : List (Text × ℕ)) (n : HttpPoster p) (last : Option ℕ)
      → n.timing.rate_burst ≡ 1
      → LastAt n.timing.rate_interval last (lookup m n.limiters)
      → AreSpaced n.timing.rate_interval last (passes_of m (wait_all p calls n).0)
  unfolding wait_all
  wait_all-AreSpaced m [] n last burst at = tt
  wait_all-AreSpaced m ((stack, now) ∷ calls) n last burst at =
      let next = (wait_for_rate_limit p stack now n).1 in
      let timing = wait_for_rate_limit-timing stack now n in
      let i = ap (λ (t : TimingConfig). t.rate_interval) timing in
      let rest : (last' : Option ℕ)
          → LastAt n.timing.rate_interval last' (lookup m next.limiters)
          → AreSpaced n.timing.rate_interval last' (passes_of m (wait_all p calls next).0) =
        λ last' at'.
          subst (λ j. AreSpaced j last' (passes_of m (wait_all p calls next).0)) i
            (wait_all-AreSpaced m calls next last'
              (ap (λ (t : TimingConfig). t.rate_burst) timing ∙ burst)
              (subst (λ j. LastAt j last' (lookup m next.limiters)) (sym i) at')) in
      elim (Bool-cases (stack == m)) [
        | inl same ↦
            subst
              (λ k.
                LastAt n.timing.rate_interval last (lookup k n.limiters)
                → ((last' : Option ℕ)
                    → LastAt n.timing.rate_interval last' (lookup k next.limiters)
                    → AreSpaced n.timing.rate_interval last'
                        (passes_of k (wait_all p calls next).0))
                → AreSpaced n.timing.rate_interval last
                    (passes_of k (wait_all p ((stack, now) ∷ calls) n).0))
              ((==_iff stack m).0 same) (own-AreSpaced stack now calls n last burst) at rest
        | inr other ↦
            let other' : (m == stack) ≡ false = ground arith in
            subst (AreSpaced n.timing.rate_interval last)
              (sym (passes_of-other m stack now calls n other))
              (rest last (
                subst (LastAt n.timing.rate_interval last)
                  (sym (wait_for_rate_limit-lookup m stack now n ∙ rw other' refl)) at))
      ]

-- With a burst of one, whatever posts of whatever stacks ask at whatever times, those of a stack are let
-- through at times that are at least the interval of the timing apart.
pub wait_all_lem :
    (p : RateLimiting) (paced : IsPaced p) (timing : TimingConfig) (calls : List (Text × ℕ))
    (stack : Text)
    → timing.rate_burst ≡ 1
    → AreSpaced timing.rate_interval none
        (passes_of stack (wait_all p calls (new_http_poster p timing)).0)
unfolding new_http_poster lookup
wait_all_lem p paced timing calls stack burst =
    wait_all-AreSpaced p paced stack calls (new_http_poster p timing) none burst refl
