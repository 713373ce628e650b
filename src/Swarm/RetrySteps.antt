-- ===== src/Swarm/RetrySteps.antt =====
-- The ends of the loop of withRetry (internal/swarm/docker_client.go) and its steps towards them.
use swarm_sentinel.Base.{
  ℕ, zero, suc, ◌+◌, ◌≤◌, List, true, false, failure, Result-cases, ap, ◌∙◌, map_failure, inl, inr,
  ◌≡◌, ◌⊎◌, ◌-◌, [], ◌∷◌, nat_eq, ◌==◌, arith,
}
use swarm_sentinel.Swarm.Docker.{DockerError}
use swarm_sentinel.Swarm.Retry.{
  is_retryable_docker_error, call_failed, Attempts, Retried, backoff_at, context_done, retry_from,
}
use swarm_sentinel.Swarm.RetryBounds.{RetriesThrough, is_final}

-- How withRetry ends at an attempt, after `k` calls that are retried: the context is done before the
-- call; the call has an answer after which there is no retry; or it fails with an error that is retried,
-- and the context is done during the wait.
abbrev pub EndsAt {ℓ} : {A : Type ℓ} → Attempts A → (ℕ → List ℕ) → ℕ → ℕ → Retried A → Type ℓ
EndsAt world waits k last r =
    ((world.is_done last ≡ true)
      × (r.result ≡ failure context_done)
      × (r.calls ≡ k)
      × (r.waits ≡ waits k))
    ⊎ ((world.is_done last ≡ false)
        × (is_final world last (world.call last) ≡ true)
        × (r.result ≡ map_failure call_failed (world.call last))
        × (r.calls ≡ k + 1)
        × (r.waits ≡ waits k))
    ⊎ ((world.is_done last ≡ false)
        × (is_final world last (world.call last) ≡ false)
        × (world.is_done_waiting last ≡ true)
        × (r.result ≡ failure context_done)
        × (r.calls ≡ k + 1)
        × (r.waits ≡ waits (suc k)))

module _ {ℓ} {A : Type ℓ} (world : Attempts A) (backoffs : List ℕ) where
  -- The waits after so many calls from an attempt on.
  unfoldable pub waits_from : ℕ → ℕ → List ℕ
  waits_from attempt zero = []
  waits_from attempt (suc k) = backoff_at backoffs (attempt - 1) ∷ waits_from (attempt + 1) k

  -- The ends of the loop from an attempt on.
  abbrev pub Ends : ℕ → Retried A → Type ℓ
  Ends attempt r =
      (k : ℕ) × (last : ℕ) × (k + attempt ≡ last)
      × (last ≤ 4)
      × RetriesThrough world attempt k
      × EndsAt world (waits_from attempt) k last r

  pub Ends-done :
      (left attempt : ℕ)
      → attempt ≤ 4
      → world.is_done attempt ≡ true
      → Ends attempt (retry_from world backoffs (suc left) attempt)
  unfolding retry_from waits_from
  Ends-done left attempt room done =
      (0, attempt, omega arith, room, tt, inl (done, ground arith, ground arith, ground arith))

  pub Ends-final :
      (left attempt : ℕ)
      → attempt ≤ 4
      → world.is_done attempt ≡ false
      → is_final world attempt (world.call attempt) ≡ true
      → Ends attempt (retry_from world backoffs (suc left) attempt)
  unfolding retry_from waits_from
  Ends-final left attempt room live final = (
    0,
    attempt,
    omega arith,
    room,
    tt,
    inr (inl (live, final, ground arith, ground arith, ground arith)),
  )

  pub Ends-waiting :
      (left attempt : ℕ)
      → attempt ≤ 4
      → world.is_done attempt ≡ false
      → is_final world attempt (world.call attempt) ≡ false
      → world.is_done_waiting attempt ≡ true
      → Ends attempt (retry_from world backoffs (suc left) attempt)
  unfolding retry_from waits_from
  Ends-waiting left attempt room live again done = (
    0,
    attempt,
    omega arith,
    room,
    tt,
    inr (inr (live, again, done, ground arith, ground arith, ground arith)),
  )

  pub is_final-false :
      (attempt : ℕ)
      → is_final world attempt (world.call attempt) ≡ false
      → (e : DockerError) × (world.call attempt ≡ failure e)
        × (is_retryable_docker_error e ≡ true)
        × ((attempt == 4) ≡ false)
  is_final-false attempt again = elim (Result-cases (world.call attempt)) [
    | inl (a, found) ↦ absurd (ground arith)
    | inr (e, found) ↦ (e, found, ground arith, ground arith)
  ]

  pub retry_from-again :
      (left attempt : ℕ)
      → world.is_done attempt ≡ false
      → is_final world attempt (world.call attempt) ≡ false
      → world.is_done_waiting attempt ≡ false
      → let later = retry_from world backoffs left (attempt + 1) in
        retry_from world backoffs (suc left) attempt ≡ record {
          result = later.result;
          calls = later.calls + 1;
          waits = backoff_at backoffs (attempt - 1) ∷ later.waits;
        }
  unfolding retry_from
  retry_from-again left attempt live again waiting =
      let (e, failed, retried, early) = is_final-false attempt again in
      ground (arith, failed, retried, early)

  -- One call more before the end.
  pub EndsAt-again :
      (attempt k last : ℕ) (later r : Retried A)
      → r ≡ record {
        result = later.result;
        calls = later.calls + 1;
        waits = backoff_at backoffs (attempt - 1) ∷ later.waits;
      }
      → EndsAt world (waits_from (attempt + 1)) k last later
      → EndsAt world (waits_from attempt) (suc k) last r
  unfolding waits_from
  EndsAt-again attempt k last later r is (inl (done, result, calls, waits)) = inl (
    done,
    ap (λ (x : Retried A). x.result) is ∙ result,
    ap (λ (x : Retried A). x.calls) is ∙ omega (arith, calls),
    ap (λ (x : Retried A). x.waits) is ∙ ap (λ ws. backoff_at backoffs (attempt - 1) ∷ ws) waits,
  )
  EndsAt-again attempt k last later r is (inr (inl (live, final, result, calls, waits))) = inr (
      inl (
        live,
        final,
        ap (λ (x : Retried A). x.result) is ∙ result,
        ap (λ (x : Retried A). x.calls) is ∙ omega (arith, calls),
        ap (λ (x : Retried A). x.waits) is
            ∙ ap (λ ws. backoff_at backoffs (attempt - 1) ∷ ws) waits,
      ))
  EndsAt-again attempt k last later r is (inr (inr (live, again, waiting, result, calls, waits))) =
      inr (
        inr (
          live,
          again,
          waiting,
          ap (λ (x : Retried A). x.result) is ∙ result,
          ap (λ (x : Retried A). x.calls) is ∙ omega (arith, calls),
          ap (λ (x : Retried A). x.waits) is
              ∙ ap (λ ws. backoff_at backoffs (attempt - 1) ∷ ws) waits,
        ))
