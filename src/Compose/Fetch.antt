-- ===== src/Compose/Fetch.antt =====
-- The download of a compose file: internal/compose/fetcher.go. The HTTP client is a parameter.
use swarm_sentinel.Base.{
  ℕ, zero, suc, ◌+◌, ◌-◌, leb, length, take, ℤ, pos, int_eq, pos_part, ltb_ℤ, leb_ℤ, ◌+ᵢ◌, decimal,
  Text, text, to_lower, contains_text, trim_space, has_prefix, List, [], ◌∷◌, ◌++◌, Option, none,
  some, Bool, true, false, ◌&&◌, ◌||◌, is_nil, Result, success, failure, ◌==◌, if◌then◌else◌,
}
use swarm_sentinel.Compose.Types.{FetchResult}

-- The bytes that a body yields, and the error, if any, at their end.
pub record Body : Type 0 where
  pub bytes : Text
  pub read_error : Option Text

pub record Response : Type 0 where
  pub status_code : ℤ
  pub status : Text
  pub etag : Text
  pub last_modified : Text
  pub body : Body

-- An error of an attempt: a *FetchError with its status code, 0 for none, a *nonRetryableError, or
-- another, which may tell of a timeout.
pub data FetchError : Type 0 where
  fetch_error : ℤ → Text → FetchError
  non_retryable : Text → FetchError
  other_error : Bool → Text → FetchError

-- An error of Fetch: that of an attempt, that of the context, or the last one of all the attempts.
pub data FetchFailure : Type 0 where
  attempt_failed : FetchError → FetchFailure
  context_error : FetchFailure
  attempts_failed : ℕ → Option FetchError → FetchFailure

-- HTTPFetcher, less its URL and its client
pub record HttpFetcher : Type 0 where
  pub max_bytes : ℤ
  pub max_retries : ℕ
  pub retry_delay : ℤ

abbrev pub default_max_bytes : ℤ
default_max_bytes = pos 5_242_880

abbrev pub max_retry_delay : ℤ
max_retry_delay = pos 30_000_000_000

-- WithMaxRetries, for a count that is not negative, and WithRetryDelay
unfoldable pub with_max_retries : ℕ → HttpFetcher → HttpFetcher
with_max_retries n fetcher = record fetcher { max_retries = n }

unfoldable pub with_retry_delay : ℤ → HttpFetcher → HttpFetcher
with_retry_delay d fetcher = if ltb_ℤ (pos 0) d then record fetcher { retry_delay = d } else fetcher

apply_options : List (HttpFetcher → HttpFetcher) → HttpFetcher → HttpFetcher
apply_options [] fetcher = fetcher
apply_options (opt ∷ opts) fetcher = apply_options opts (opt fetcher)

-- NewHTTPFetcher
unfoldable pub new_http_fetcher :
    Text → ℤ → ℤ → List (HttpFetcher → HttpFetcher) → Result Text HttpFetcher
unfolding apply_options trim_space has_prefix
new_http_fetcher compose_url timeout max_bytes opts =
    if is_nil (trim_space compose_url)
    then failure (text "compose url must not be empty")
    else if has_prefix compose_url (text "http://") || has_prefix compose_url (text "https://")
    then (if leb_ℤ timeout (pos 0)
        then failure (text "timeout must be greater than zero")
        else success (
            apply_options opts (record {
              max_bytes = if leb_ℤ max_bytes (pos 0) then default_max_bytes else max_bytes;
              max_retries = 3;
              retry_delay = pos 1_000_000_000;
            })))
    else failure (text "compose url must use http or https scheme")

-- FetchError.IsRetryable
unfoldable pub is_retryable : ℤ → Bool
is_retryable status_code =
    if status_code == pos 0
    then true
    else leb_ℤ (pos 500) status_code && ltb_ℤ status_code (pos 600)

-- The loop over the patterns.
unfoldable pub matches_any : Text → List Text → Bool
unfolding contains_text to_lower
matches_any message [] = false
matches_any message (pattern ∷ patterns) =
    contains_text (to_lower message) (to_lower pattern) || matches_any message patterns

-- isRetryableError, for an error that is not nil
unfoldable pub is_retryable_error : FetchError → Bool
unfolding is_retryable matches_any contains_text
is_retryable_error (fetch_error status_code message) = is_retryable status_code
is_retryable_error (non_retryable message) = false
is_retryable_error (other_error is_timeout message) =
    is_timeout
    || contains_text message (text "server error:")
    || matches_any message (
        text "connection refused"
        ∷ text "connection reset"
        ∷ text "no such host"
        ∷ text "temporary failure"
        ∷ text "i/o timeout"
        ∷ text "EOF"
        ∷ [])

-- readWithLimit: at most one byte more than the limit is read, and an error past it is not met.
unfoldable pub read_with_limit : Body → ℤ → Result Text Text
unfolding ◌+ᵢ◌ decimal
read_with_limit source max_bytes =
    let limit = pos_part (max_bytes +ᵢ pos 1) in
    let read = take limit source.bytes in
    elim (if leb limit (length source.bytes) then none else source.read_error) [
      | some e ↦ failure (text "read compose: " ++ e)
      | none ↦
          if ltb_ℤ max_bytes (pos (length read))
          then failure (text "compose body exceeds " ++ (decimal max_bytes ++ text " bytes"))
          else success read
    ]

-- What follows a response in doFetch.
unfoldable pub accept_response : HttpFetcher → Response → Result FetchError FetchResult
unfolding read_with_limit
accept_response fetcher resp =
    if resp.status_code == pos 304
    then success (record {
      body = [];
      etag = resp.etag;
      last_modified = resp.last_modified;
      not_modified = true;
    })
    else if leb_ℤ (pos 500) resp.status_code && ltb_ℤ resp.status_code (pos 600)
    then failure (fetch_error resp.status_code (text "server error: " ++ resp.status))
    else if resp.status_code == pos 200
    then (elim (read_with_limit resp.body fetcher.max_bytes) [
      | failure e ↦ failure (fetch_error (pos 0) e)
      | success body ↦
          if is_nil body
          then failure (non_retryable (text "compose body is empty"))
          else success (record {
            body = body;
            etag = resp.etag;
            last_modified = resp.last_modified;
            not_modified = false;
          })
    ])
    else failure (non_retryable (text "unexpected status: " ++ resp.status))

-- What the fetcher meets at each attempt, from 0: whether the context is done during the wait
-- before it, the error of building the request, the answer to the request with its If-None-Match
-- header, and whether the context is done after it.
pub record Network : Type 0 where
  pub is_done_waiting : ℕ → Bool
  pub request_error : ℕ → Option Text
  pub answer : ℕ → Option Text → Result Text Response
  pub is_done_after : ℕ → Bool

-- doFetch
unfoldable pub do_fetch : HttpFetcher → Network → ℕ → Text → Result FetchError FetchResult
unfolding accept_response
do_fetch fetcher network attempt previous_etag = elim (network.request_error attempt) [
  | some e ↦ failure (fetch_error (pos 0) (text "create request: " ++ e))
  | none ↦
      elim (network.answer attempt (if is_nil previous_etag then none else some previous_etag)) [
        | failure e ↦ failure (fetch_error (pos 0) (text "fetch compose: " ++ e))
        | success resp ↦ accept_response fetcher resp
      ]
]

-- The loop of calculateBackoff, with the turns that are left.
unfoldable pub double_delay : ℕ → ℤ → ℤ
unfolding ◌+ᵢ◌
double_delay zero delay = delay
double_delay (suc turns) delay =
    let doubled = delay +ᵢ delay in
    let later = double_delay turns doubled in
    if ltb_ℤ max_retry_delay doubled then max_retry_delay else later

-- calculateBackoff
unfoldable pub calculate_backoff : HttpFetcher → ℕ → ℤ
unfolding double_delay
calculate_backoff fetcher attempt = double_delay (attempt - 1) fetcher.retry_delay

-- The result, and the delays before the attempts.
pub record Fetched : Type 0 where
  pub result : Result FetchFailure FetchResult
  pub delays : List ℤ

module _ (fetcher : HttpFetcher) (network : Network) (previous_etag : Text) where
  -- The loop of Fetch, with the attempts that are left and the last error.
  unfoldable pub fetch_from : ℕ → ℕ → Option FetchError → Fetched
  fetch_from zero attempt last = record {
    result = failure (attempts_failed (fetcher.max_retries + 1) last);
    delays = [];
  }
  fetch_from (suc left) attempt last =
      let delay = if leb attempt 0 then [] else calculate_backoff fetcher attempt ∷ [] in
      if (leb 1 attempt) && network.is_done_waiting attempt
      then record { result = failure context_error; delays = delay }
      else elim (do_fetch fetcher network attempt previous_etag) [
        | success result ↦ record { result = success result; delays = delay }
        | failure e ↦
            let later = fetch_from left (attempt + 1) (some e) in
            if network.is_done_after attempt
            then record { result = failure context_error; delays = delay }
            else if is_retryable_error e
            then record { result = later.result; delays = delay ++ later.delays }
            else record { result = failure (attempt_failed e); delays = delay }
      ]

-- Fetch
unfoldable pub fetch : HttpFetcher → Network → Text → Fetched
fetch fetcher network previous_etag =
    fetch_from fetcher network previous_etag (fetcher.max_retries + 1) 0 none
