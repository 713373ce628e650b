-- ===== src/Notify/Poster.antt =====
-- Posting to a webhook: postOnce, postWithRetry and parseRetryAfter of internal/notify/http_poster.go.
-- The HTTP client, the backoff package and the dates of package http are parameters.
use swarm_sentinel.Base.{
  ℕ, suc, ◌*◌, ℤ, pos, int_eq, pos_part, wrap64, ltb_ℤ, leb_ℤ, Text, text, text_eq, concat_texts,
  trim_space, take, List, [], ◌∷◌, Option, none, some, Bool, not, ◌&&◌, is_nil, Result, success,
  failure, ◌==◌, if◌then◌else◌,
}
use swarm_sentinel.Base.Numeral.{atoi}

-- A response: its status code and text, its Retry-After header and its body.
pub record PostResponse : Type 0 where
  pub status_code : ℤ
  pub status : Text
  pub retry_after : Text
  pub body : Text

-- The errors of postOnce: a *retryableError, a *retryAfterError and the others.
pub data PostError : Type 0 where
  retryable : Text → PostError
  retry_later : ℤ → Text → PostError
  permanent : Text → PostError

-- http.ParseTime followed by time.Until: the time that is left until a date, none for no date
abbrev pub UntilDate : Type 0
UntilDate = Text → Option ℤ

-- parseRetryAfter, with the product of a Duration cut to 64 bits
unfoldable pub parse_retry_after : UntilDate → Text → Option ℤ
unfolding atoi wrap64
parse_retry_after until value = if is_nil value then none else (elim (atoi value) [
  | some seconds ↦
      if leb_ℤ seconds (pos 0) then none else some (wrap64 (pos (pos_part seconds * 1_000_000_000)))
  | none ↦ elim (until value) [
    | none ↦ none
    | some wait ↦ if leb_ℤ wait (pos 0) then none else some wait
  ]
])

-- What follows a response in postOnce.
unfoldable pub judge_response : Text → UntilDate → PostResponse → Result PostError (Unit {0})
unfolding parse_retry_after concat_texts trim_space
judge_response service until resp =
    let body = trim_space (take 1024 resp.body) in
    let limited = concat_texts (service ∷ text " rate limited: " ∷ resp.status ∷ []) in
    if leb_ℤ (pos 200) resp.status_code && ltb_ℤ resp.status_code (pos 300)
    then success tt
    else if resp.status_code == pos 429
    then (elim (parse_retry_after until resp.retry_after) [
      | some wait ↦ failure (retry_later wait limited)
      | none ↦ failure (retryable limited)
    ])
    else if leb_ℤ (pos 500) resp.status_code
    then failure (retryable (concat_texts (service ∷ text " server error: " ∷ resp.status ∷ [])))
    else if not (is_nil body)
    then failure (
        permanent (
          concat_texts
            (service ∷ text " request failed: " ∷ resp.status ∷ text " (" ∷ body ∷ text ")" ∷ [])))
    else failure (permanent (concat_texts (service ∷ text " request failed: " ∷ resp.status ∷ [])))

-- What one attempt meets: the error of building the request, the answer of the client, the backoff
-- that NextBackOff gives, none for Stop, and whether the context is done before the sleep ends.
pub record Attempt : Type 0 where
  pub build_error : Option Text
  pub answer : Result Text PostResponse
  pub until_date : UntilDate
  pub next_backoff : Option ℤ
  pub is_done_sleeping : Bool

-- postOnce
unfoldable pub post_once : Text → Attempt → Result PostError (Unit {0})
unfolding judge_response concat_texts
post_once service attempt = elim attempt.build_error [
  | some e ↦
      failure (permanent (concat_texts (text "build " ∷ service ∷ text " request: " ∷ e ∷ [])))
  | none ↦ elim attempt.answer [
    | failure e ↦ failure (retryable (concat_texts (service ∷ text " request failed: " ∷ e ∷ [])))
    | success resp ↦ judge_response service attempt.until_date resp
  ]
]

-- How a post ends; `running` if it has met all the attempts and goes on.
pub data PostEnd : Type 0 where
  running delivered canceled : PostEnd
  refused : PostError → PostEnd

-- The end, the number of requests, and the sleeps.
pub record Posting : Type 0 where
  pub end : PostEnd
  pub requests : ℕ
  pub sleeps : List ℤ

-- What comes of an attempt: the end of the loop, or a sleep.
pub data Verdict : Type 0 where
  ends : PostEnd → Verdict
  sleeps_for : ℤ → Verdict

-- The body of the loop of postWithRetry, up to the sleep.
unfoldable pub judge_attempt : Text → Attempt → Verdict
unfolding post_once
judge_attempt service attempt = elim (post_once service attempt) [
  | success done ↦ ends delivered
  | failure (retry_later wait e) ↦ sleeps_for wait
  | failure (permanent e) ↦ ends (refused (permanent e))
  | failure (retryable e) ↦ elim attempt.next_backoff [
    | none ↦ ends (refused (retryable e))
    | some wait ↦ sleeps_for wait
  ]
]

-- postWithRetry over the attempts that it comes to
unfoldable pub post_with_retry : Text → List Attempt → Posting
unfolding judge_attempt
post_with_retry service [] = record { end = running; requests = 0; sleeps = [] }
post_with_retry service (attempt ∷ attempts) =
    let later = post_with_retry service attempts in
    elim (judge_attempt service attempt) [
      | ends e ↦ record { end = e; requests = 1; sleeps = [] }
      | sleeps_for wait ↦
          if attempt.is_done_sleeping
          then record { end = canceled; requests = 1; sleeps = wait ∷ [] }
          else record {
            end = later.end;
            requests = suc later.requests;
            sleeps = wait ∷ later.sleeps;
          }
    ]
