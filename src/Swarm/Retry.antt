-- ===== src/Swarm/Retry.antt =====
-- Retries of Docker calls: withRetry of internal/swarm/docker_client.go.
use swarm_sentinel.Base.{
  ℕ, zero, suc, ◌+◌, ◌-◌, Text, text, to_lower, contains_text, List, [], ◌∷◌, Bool, true, false,
  not, ◌||◌, is_nil, Result, success, failure, nat_eq, ◌==◌, if◌then◌else◌,
}
use swarm_sentinel.Swarm.Docker.{DockerError}

-- Any of the texts is part of the message.
mentions : Text → List Text → Bool
unfolding contains_text
mentions message [] = false
mentions message (t ∷ ts) = contains_text message t || mentions message ts

-- isRetryableDockerError, for an error that is not nil
unfoldable pub is_retryable_docker_error : DockerError → Bool
unfolding mentions to_lower
is_retryable_docker_error e =
    if e.is_canceled
    then false
    else if e.is_unauthorized || e.is_forbidden
    then false
    else if e.is_deadline_exceeded
    then true
    else if e.is_temporary_net
    then true
    else mentions (to_lower e.message) (
        text "timeout"
        ∷ text "connection reset"
        ∷ text "connection refused"
        ∷ text "broken pipe"
        ∷ text "eof"
        ∷ text "leader election"
        ∷ [])

pub data RetryError : Type 0 where
  context_done : RetryError
  call_failed : DockerError → RetryError
  exhausted : RetryError

-- What a retried call meets at each attempt, from 1: whether the context is done before it, its
-- answer, and whether the context is done during the wait after it.
pub record Attempts {ℓ} (A : Type ℓ) : Type ℓ where
  pub is_done : ℕ → Bool
  pub call : ℕ → Result DockerError A
  pub is_done_waiting : ℕ → Bool

-- The result, the number of calls and the waits, in nanoseconds.
pub record Retried {ℓ} (A : Type ℓ) : Type ℓ where
  pub result : Result RetryError A
  pub calls : ℕ
  pub waits : List ℕ

abbrev pub default_retry_backoffs : List ℕ
default_retry_backoffs = 1_000_000_000 ∷ 2_000_000_000 ∷ 4_000_000_000 ∷ []

-- `backoffs[min(attempt-1, len(backoffs)-1)]`
unfoldable pub backoff_at : List ℕ → ℕ → ℕ
backoff_at [] i = 0
backoff_at (b ∷ []) i = b
backoff_at (b ∷ c ∷ bs) zero = b
backoff_at (b ∷ c ∷ bs) (suc i) = backoff_at (c ∷ bs) i

abbrev pub max_attempts : ℕ
max_attempts = 4

module _ {ℓ} {A : Type ℓ} (world : Attempts A) (backoffs : List ℕ) where
  -- The loop, with the attempts that are left.
  unfoldable pub retry_from : ℕ → ℕ → Retried A
  retry_from zero attempt = record { result = failure exhausted; calls = 0; waits = [] }
  retry_from (suc left) attempt =
      let later = retry_from left (attempt + 1) in
      let wait = backoff_at backoffs (attempt - 1) in
      if world.is_done attempt
      then record { result = failure context_done; calls = 0; waits = [] }
      else elim (world.call attempt) [
        | success a ↦ record { result = success a; calls = 1; waits = [] }
        | failure e ↦
            if not (is_retryable_docker_error e) || attempt == max_attempts
            then record { result = failure (call_failed e); calls = 1; waits = [] }
            else if world.is_done_waiting attempt
            then record { result = failure context_done; calls = 1; waits = wait ∷ [] }
            else record {
              result = later.result;
              calls = later.calls + 1;
              waits = wait ∷ later.waits;
            }
      ]

-- withRetry
unfoldable pub with_retry {ℓ} : {A : Type ℓ} → Attempts A → List ℕ → Retried A
with_retry world backoffs =
    retry_from world (if is_nil backoffs then default_retry_backoffs else backoffs) max_attempts 1
