-- ===== src/Notify/Posting.antt =====
-- How long postWithRetry of internal/notify/http_poster.go goes on, and with what it ends.
use swarm_sentinel.Base.{
  ℕ, ◌+◌, ◌-◌, ◌*◌, ◌^◌, ◌<◌, leb, ltb, ◌%◌, length, ℤ, pos, negsuc, int_eq, wrap64, of_bits, Text,
  text_eq, List, [], ◌∷◌, ◌++◌, All, none, some, false, success, ◌≡◌, refl, arith, if◌then◌else◌,
}
use swarm_sentinel.Base.Numeral.{atoi}
use swarm_sentinel.Notify.Poster.{
  PostResponse, UntilDate, parse_retry_after, judge_response, Attempt, post_once, PostEnd, running,
  ends, sleeps_for, judge_attempt, post_with_retry,
}

atoi-nil : (n : ℕ) → atoi [] ≡ some (pos n) → ⊥
unfolding atoi
atoi-nil n h = cc

-- The 64-bit Duration of so many seconds, in nanoseconds.
abbrev pub wait_of : ℕ → ℤ
wait_of n =
    let bits : ℕ = n * 1_000_000_000 % 2 ^ 64 in
    if leb n 9_223_372_036
    then pos (n * 1_000_000_000)
    else if leb n 18_446_744_073
    then negsuc (2 ^ 64 - n * 1_000_000_000 - 1)
    else if ltb bits (2 ^ 63)
    then pos bits
    else negsuc (2 ^ 64 - bits - 1)

wrap_seconds : (n : ℕ) → wrap64 (pos (n * 1_000_000_000)) ≡ wait_of n
unfolding wrap64 of_bits
wrap_seconds n = ground arith

-- A Retry-After of up to 9223372036 seconds is waited for exactly. The product of a greater one wraps:
-- up to 18446744073 seconds to a negative wait, and above to what 64 bits leave of it.
pub parse_retry_after-seconds :
    (until : UntilDate) (value : Text) (n : ℕ)
    → atoi value ≡ some (pos n)
    → 0 < n
    → parse_retry_after until value ≡ some (wait_of n)
unfolding parse_retry_after
parse_retry_after-seconds until [] n number positive = absurd (atoi-nil n number)
parse_retry_after-seconds until (c ∷ s) n number positive = ground (arith, wrap_seconds n)

-- The attempt is followed by another one, after this wait.
abbrev pub GoesOn : Text → Attempt → Type 0
GoesOn service attempt =
    (wait : ℤ) × (judge_attempt service attempt ≡ sleeps_for wait)
    × (attempt.is_done_sleeping ≡ false)

-- The loop ends with the first attempt that ends it: one that is delivered, that fails with an error
-- which is not retried, or whose backoff has stopped. The attempts before it have been made and slept
-- after, and no other is made.
pub post_with_retry-ends :
    (service : Text) (passed : List Attempt) (last : Attempt) (rest : List Attempt) (e : PostEnd)
    → All (GoesOn service) passed
    → judge_attempt service last ≡ ends e
    → ((post_with_retry service (passed ++ (last ∷ rest))).end ≡ e)
      × ((post_with_retry service (passed ++ (last ∷ rest))).requests ≡ length passed + 1)
      × (length (post_with_retry service (passed ++ (last ∷ rest))).sleeps ≡ length passed)
unfolding post_with_retry
post_with_retry-ends service [] last rest e on final = ground arith
post_with_retry-ends service (a ∷ passed) last rest e ((wait, sleeps, live), on) final =
    ground (arith, post_with_retry-ends service passed last rest e on final)

-- An answer of 429 with a Retry-After that is understood, and no end of the context.
abbrev pub IsRateLimited : Attempt → Type 0
IsRateLimited attempt =
    (attempt.build_error ≡ none)
    × ((resp : PostResponse) × (wait : ℤ) × (attempt.answer ≡ success resp)
        × (resp.status_code ≡ pos 429)
        × (parse_retry_after attempt.until_date resp.retry_after ≡ some wait))
    × (attempt.is_done_sleeping ≡ false)

IsRateLimited-GoesOn :
    (service : Text) (attempt : Attempt) → IsRateLimited attempt → GoesOn service attempt
unfolding judge_attempt post_once judge_response
IsRateLimited-GoesOn service attempt (built, (resp, wait, found, limited, understood), live) =
    (wait, ground arith, live)

-- While it is answered with 429 and a Retry-After, the loop goes on, whatever the backoff says: it has
-- no limit on the number of requests or on their time.
pub post_with_retry-rate_limited :
    (service : Text) (attempts : List Attempt)
    → All IsRateLimited attempts
    → ((post_with_retry service attempts).end ≡ running)
      × ((post_with_retry service attempts).requests ≡ length attempts)
unfolding post_with_retry
post_with_retry-rate_limited service [] limited = (refl, refl)
post_with_retry-rate_limited service (a ∷ attempts) (here, limited) =
    let (wait, sleeps, live) = IsRateLimited-GoesOn service a here in
    ground (arith, post_with_retry-rate_limited service attempts limited)
