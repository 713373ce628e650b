-- ===== src/Compose/Fetching.antt =====
-- What Fetch of internal/compose/fetcher.go returns, how often it asks and how long it waits.
use swarm_sentinel.Base.{
  ℕ, zero, suc, ◌+◌, ◌-◌, ◌*◌, ◌^◌, ◌<◌, ◌≤◌, min, leb, length, pos, int_eq, +ᵢ-pos, Text, [],
  Option, none, some, Bool, true, false, not, ◌&&◌, is_nil, Result, success, failure, map_failure,
  Result-cases, Bool-cases, inl, inr, ◌≡◌, ◌⊎◌, Option-cases, length-take, take-all, ◌∙◌, sym, ap,
  arith, if◌then◌else◌,
}
use swarm_sentinel.Compose.Types.{FetchResult}
use swarm_sentinel.Compose.Fetch.{
  Body, Response, FetchError, attempt_failed, attempts_failed, HttpFetcher, is_retryable_error,
  read_with_limit, accept_response, Network, do_fetch, double_delay, calculate_backoff, fetch_from,
  fetch,
}

two_powers : (n : ℕ) → 1 ≤ 2 ^ n
two_powers zero = omega arith
two_powers (suc n) = omega (arith, two_powers n)

double_assoc : (d p : ℕ) → (d + d) * p ≡ d * (2 * p)
double_assoc d p = omega arith

double_grows : (d p : ℕ) → 1 ≤ p → d + d ≤ (d + d) * p
double_grows d zero h = absurd (omega arith)
double_grows d (suc p) h = omega arith

-- The delay before the attempt n + 1 doubles each time up to 30 seconds.
double_delay_lem :
    (n d : ℕ)
    → d ≤ 30_000_000_000
    → 0 < d
    → double_delay n (pos d) ≡ pos (min (d * 2 ^ n) 30_000_000_000)
unfolding double_delay
double_delay_lem zero d fits positive = ground arith
double_delay_lem (suc n) d fits positive =
    rw (+ᵢ-pos d d (omega arith)) (elim (Bool-cases (leb (d + d) 30_000_000_000)) [
      | inl below ↦
          ground
            (arith, double_delay_lem n (d + d) (ground arith) (omega arith), double_assoc d (2 ^ n))
      | inr above ↦ ground (arith, double_assoc d (2 ^ n), double_grows d (2 ^ n) (two_powers n))
    ])

module _ (fetcher : HttpFetcher) (network : Network) (previous_etag : Text) where
  -- The attempts from this one on, `k` of them, are made and fail with errors that are retried.
  abbrev pub FailsOn : ℕ → ℕ → Type 0
  FailsOn attempt zero = Unit
  FailsOn attempt (suc k) =
      ((leb 1 attempt && network.is_done_waiting attempt) ≡ false)
      × ((e : FetchError) × (do_fetch fetcher network attempt previous_etag ≡ failure e)
          × (is_retryable_error e ≡ true))
      × (network.is_done_after attempt ≡ false)
      × FailsOn (attempt + 1) k

  -- An answer after which there is no other attempt.
  abbrev pub ends : Result FetchError FetchResult → Bool
  ends (success result) = true
  ends (failure e) = not (is_retryable_error e)

  fetch_from-answer :
      (k left attempt final : ℕ) (last : Option FetchError)
      → attempt + k ≡ final
      → k < left
      → FailsOn attempt k
      → (leb 1 final && network.is_done_waiting final) ≡ false
      → ends (do_fetch fetcher network final previous_etag) ≡ true
      → network.is_done_after final ≡ false
      → (fetch_from fetcher network previous_etag left attempt last).result
        ≡ map_failure attempt_failed (do_fetch fetcher network final previous_etag)
  unfolding fetch_from
  fetch_from-answer k zero attempt final last at room through waited ending live =
      absurd (omega arith)
  fetch_from-answer zero (suc left) attempt final last at room through waited ending live =
      let e : final ≡ attempt = omega arith in
      let waited' : (leb 1 attempt && network.is_done_waiting attempt) ≡ false = rw e at waited in
      let ending' : ends (do_fetch fetcher network attempt previous_etag) ≡ true = rw e at ending in
      let live' : network.is_done_after attempt ≡ false = rw e at live in
      rw e (elim (Result-cases (do_fetch fetcher network attempt previous_etag)) [
        | inl (a, found) ↦ ground arith
        | inr (x, found) ↦ ground arith
      ])
  fetch_from-answer (suc k) (suc left) attempt final last at room through waited ending live =
      let (waiting, (e, failed, again), going, rest) = through in
      ground (arith, fetch_from-answer k left (attempt + 1) final (some e))

  fetch_from-exhausted :
      (left attempt : ℕ) (last : Option FetchError)
      → 0 < left
      → FailsOn attempt left
      → (e : FetchError) × (do_fetch fetcher network (attempt + left - 1) previous_etag ≡ failure e)
        × ((fetch_from fetcher network previous_etag left attempt last).result
            ≡ failure (attempts_failed (fetcher.max_retries + 1) (some e)))
  unfolding fetch_from
  fetch_from-exhausted zero attempt last some_left through = absurd (omega arith)
  fetch_from-exhausted (suc zero) attempt last some_left through =
      let (waiting, (e, failed, again), going, rest) = through in
      let same : attempt + 1 - 1 ≡ attempt = omega arith in (e, rw same failed, ground arith)
  fetch_from-exhausted (suc (suc left)) attempt last some_left through =
      let (waiting, (e, failed, again), going, rest) = through in
      let (e', failed', result) =
        fetch_from-exhausted (suc left) (attempt + 1) (some e) (omega arith) rest in
      let same : attempt + suc (suc left) - 1 ≡ attempt + 1 + suc left - 1 = omega arith in
      (e', rw same failed', ground arith)

  fetch_from-success :
      (left attempt : ℕ) (last : Option FetchError) (r : FetchResult)
      → (fetch_from fetcher network previous_etag left attempt last).result ≡ success r
      → (i : ℕ) × (do_fetch fetcher network i previous_etag ≡ success r)
  unfolding fetch_from
  fetch_from-success zero attempt last r h = ground arith
  fetch_from-success (suc left) attempt last r h =
      elim (Result-cases (do_fetch fetcher network attempt previous_etag)) [
        | inl (a, found) ↦ (attempt, ground arith)
        | inr (e, found) ↦ fetch_from-success left (attempt + 1) (some e) r (ground arith)
      ]

-- The result is that of the response: a 304 without a body, or a 200 with all the bytes of a body
-- that ended without an error, is not empty and keeps to the limit.
abbrev pub IsAnswer : ℕ → Response → FetchResult → Type 0
IsAnswer max_bytes resp r =
    (r.etag ≡ resp.etag)
    × (((resp.status_code ≡ pos 304) × (r.not_modified ≡ true) × (r.body ≡ []))
        ⊎ ((resp.status_code ≡ pos 200)
            × (r.not_modified ≡ false)
            × (r.body ≡ resp.body.bytes)
            × (resp.body.read_error ≡ none)
            × (is_nil r.body ≡ false)
            × (length r.body ≤ max_bytes)))

read_with_limit-success :
    (source : Body) (max_bytes : ℕ) (read : Text)
    → max_bytes + 1 < 2 ^ 63
    → read_with_limit source (pos max_bytes) ≡ success read
    → (read ≡ source.bytes) × (source.read_error ≡ none) × (length read ≤ max_bytes)
unfolding read_with_limit
read_with_limit-success source max_bytes read small h =
    let limit = +ᵢ-pos max_bytes 1 small in
    let h' = rw (limit, read_with_limit) at h in
    elim (Bool-cases (leb (max_bytes + 1) (length source.bytes))) [
      | inl long ↦ ground (arith, length-take (max_bytes + 1) source.bytes)
      | inr short ↦ ground (arith, take-all (max_bytes + 1) source.bytes)
    ]

accept_response-IsAnswer :
    (fetcher : HttpFetcher) (max_bytes : ℕ) (resp : Response) (r : FetchResult)
    → fetcher.max_bytes ≡ pos max_bytes
    → max_bytes + 1 < 2 ^ 63
    → accept_response fetcher resp ≡ success r
    → IsAnswer max_bytes resp r
unfolding accept_response
accept_response-IsAnswer fetcher max_bytes resp r limit small h =
    elim (Result-cases (read_with_limit resp.body (pos max_bytes))) [
      | inl (read, found) ↦
          ground (arith, limit, read_with_limit-success resp.body max_bytes read small found)
      | inr (e, found) ↦ ground (arith, limit)
    ]

-- The delay before the attempt `n + 1` is the retry delay doubled `n` times and cut at 30 seconds,
-- for a retry delay of up to 30 seconds that is not zero.
pub calculate_backoff_lem :
    (fetcher : HttpFetcher) (n d : ℕ)
    → fetcher.retry_delay ≡ pos d
    → d ≤ 30_000_000_000
    → 0 < d
    → calculate_backoff fetcher (n + 1) ≡ pos (min (d * 2 ^ n) 30_000_000_000)
unfolding calculate_backoff
calculate_backoff_lem fetcher n d delay fits positive =
    let same : n + 1 - 1 ≡ n = omega arith in rw (delay, same) (double_delay_lem n d fits positive)

-- A result of Fetch is that of a response to one of its requests: a 304 without a body, or a 200
-- whose body ended without an error, is whole, not empty and no longer than the limit. The limit is
-- less than the greatest 64-bit integer.
pub fetch-IsAnswer :
    (fetcher : HttpFetcher) (network : Network) (previous_etag : Text) (max_bytes : ℕ)
    (r : FetchResult)
    → fetcher.max_bytes ≡ pos max_bytes
    → max_bytes + 1 < 2 ^ 63
    → (fetch fetcher network previous_etag).result ≡ success r
    → (i : ℕ) × (resp : Response) × (network.answer i
          (if is_nil previous_etag then none else some previous_etag)
        ≡ success resp)
      × IsAnswer max_bytes resp r
unfolding fetch do_fetch
fetch-IsAnswer fetcher network previous_etag max_bytes r limit small h =
    let (i, done) =
      fetch_from-success fetcher network previous_etag (fetcher.max_retries + 1) 0 none r h in
    elim (Option-cases (network.request_error i)) [
      | inl built ↦
          let header = if is_nil previous_etag then none else some previous_etag in
          elim (Result-cases (network.answer i header)) [
            | inl (resp, found) ↦
                let done' : accept_response fetcher resp ≡ success r = ground arith in
                (
                  i,
                  resp,
                  found,
                  accept_response-IsAnswer fetcher max_bytes resp r limit small done',
                )
            | inr (e, found) ↦ ground arith
          ]
      | inr (e, found) ↦ ground arith
    ]

-- The answer is that of the first attempt that succeeds or fails with an error that is not retried,
-- after `k` attempts with errors that are, if the context has not been done at any check up to then.
pub fetch-answer :
    (fetcher : HttpFetcher) (network : Network) (previous_etag : Text) (k : ℕ)
    → k ≤ fetcher.max_retries
    → FailsOn fetcher network previous_etag 0 k
    → (leb 1 k && network.is_done_waiting k) ≡ false
    → ends fetcher network previous_etag (do_fetch fetcher network k previous_etag) ≡ true
    → network.is_done_after k ≡ false
    → (fetch fetcher network previous_etag).result
      ≡ map_failure attempt_failed (do_fetch fetcher network k previous_etag)
unfolding fetch
fetch-answer fetcher network previous_etag k room through waited ending live =
    fetch_from-answer fetcher network previous_etag k (fetcher.max_retries + 1) 0 k none
      (omega arith) (omega arith) through waited ending live

-- If all the attempts, one and the retries, fail with errors that are retried, Fetch fails with the
-- last of them.
pub fetch-exhausted :
    (fetcher : HttpFetcher) (network : Network) (previous_etag : Text)
    → FailsOn fetcher network previous_etag 0 (fetcher.max_retries + 1)
    → (e : FetchError) × (do_fetch fetcher network fetcher.max_retries previous_etag ≡ failure e)
      × ((fetch fetcher network previous_etag).result
          ≡ failure (attempts_failed (fetcher.max_retries + 1) (some e)))
unfolding fetch
fetch-exhausted fetcher network previous_etag through =
    let same : 0 + (fetcher.max_retries + 1) - 1 ≡ fetcher.max_retries = omega arith in
    let (e, failed, result) =
      fetch_from-exhausted fetcher network previous_etag (fetcher.max_retries + 1) 0 none
        (omega arith) through in
    (e, ap (λ i. do_fetch fetcher network i previous_etag) (sym same) ∙ failed, result)
