-- ===== src/Swarm/RetryBounds.antt =====
-- Which answer withRetry of internal/swarm/docker_client.go returns.
use swarm_sentinel.Base.{
  ℕ, zero, suc, ◌+◌, ◌<◌, List, Bool, true, false, not, ◌||◌, is_nil, Result, success, failure,
  Result-cases, map_failure, inl, inr, ◌≡◌, refl, nat_eq, ◌==◌, arith, if◌then◌else◌,
}
use swarm_sentinel.Swarm.Docker.{DockerError}
use swarm_sentinel.Swarm.Retry.{
  is_retryable_docker_error, call_failed, Attempts, Retried, default_retry_backoffs, max_attempts,
  retry_from, with_retry,
}

module _ {ℓ} {A : Type ℓ} (world : Attempts A) where
  -- The attempts from this one on, `k` of them, fail with errors that are retried.
  abbrev pub RetriesThrough : ℕ → ℕ → Type ℓ
  RetriesThrough attempt zero = Unit
  RetriesThrough attempt (suc k) =
      (world.is_done attempt ≡ false)
      × ((e : DockerError) × (world.call attempt ≡ failure e)
          × (is_retryable_docker_error e ≡ true))
      × (world.is_done_waiting attempt ≡ false)
      × RetriesThrough (attempt + 1) k

  -- An answer after which there is no retry.
  abbrev pub is_final : ℕ → Result DockerError A → Bool
  is_final attempt (success a) = true
  is_final attempt (failure e) = not (is_retryable_docker_error e) || attempt == 4

module _ {ℓ} {A : Type ℓ} (world : Attempts A) (backoffs : List ℕ) where
  abbrev retry : ℕ → ℕ → Retried A
  retry = retry_from world backoffs

  retry_from-answer :
      (k left attempt last : ℕ)
      → left + attempt ≡ 5
      → last < 5
      → attempt + k ≡ last
      → RetriesThrough world attempt k
      → world.is_done last ≡ false
      → is_final world last (world.call last) ≡ true
      → ((retry left attempt).calls ≡ k + 1)
        × ((retry left attempt).result ≡ map_failure call_failed (world.call last))
  unfolding retry_from
  retry_from-answer k zero attempt last sum room at through live final = absurd (omega arith)
  retry_from-answer zero (suc left) attempt last sum room at through live final =
      let e : last ≡ attempt = omega arith in
      let live' : world.is_done attempt ≡ false = rw e at live in
      let final' : is_final world attempt (world.call attempt) ≡ true = rw e at final in
      rw e (elim (Result-cases (world.call attempt)) [
        | inl (a, found) ↦ ground arith
        | inr (x, found) ↦ ground arith
      ])
  retry_from-answer (suc k) (suc left) attempt last sum room at through live final =
      let (going, (e, failed, again), waiting, rest) = through in
      let early : (attempt == max_attempts) ≡ false = ground arith in
      ground (arith, retry_from-answer k left (attempt + 1) last)

module _ {ℓ} {A : Type ℓ} (world : Attempts A) (backoffs : List ℕ) where
  -- The answer is that of the first call after which there is no retry: a success, an error that is
  -- not retried, or the fourth error. `k` calls have failed before it, each of them followed by a
  -- wait, and the context has not been done at any of the checks up to it.
  pub with_retry-answer :
      (k : ℕ)
      → k < 4
      → RetriesThrough world 1 k
      → world.is_done (k + 1) ≡ false
      → is_final world (k + 1) (world.call (k + 1)) ≡ true
      → ((with_retry world backoffs).calls ≡ k + 1)
        × ((with_retry world backoffs).result ≡ map_failure call_failed (world.call (k + 1)))
  unfolding with_retry
  with_retry-answer k room through live final =
      let used = if is_nil backoffs then default_retry_backoffs else backoffs in
      retry_from-answer world used k 4 1 (k + 1) refl (omega arith) (omega arith) through live final
