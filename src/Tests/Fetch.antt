-- ===== src/Tests/Fetch.antt =====
-- Downloads from a concrete server.
use swarm_sentinel.Base.{
  ℕ, zero, suc, ◌+◌, leb, ℤ, pos, int_eq, text_eq, ◌+ᵢ◌, text, [], ◌∷◌, none, some, true, false,
  success, ◌≡◌, refl, arith, if◌then◌else◌,
}
use swarm_sentinel.Compose.Types.{FetchResult}
use swarm_sentinel.Compose.Fetch.{
  Response, fetch_error, HttpFetcher, is_retryable, is_retryable_error, read_with_limit,
  accept_response, Network, do_fetch, double_delay, calculate_backoff, fetch_from, fetch,
}
use swarm_sentinel.Compose.Fetching.{FailsOn, ends, IsAnswer, fetch-IsAnswer}

abbrev fetcher : HttpFetcher
fetcher = record { max_bytes = pos 8; max_retries = 3; retry_delay = pos 1_000_000_000 }

abbrev respond : ℤ → Response
respond status_code = record {
  status_code = status_code;
  status = text "status";
  etag = text "v2";
  last_modified = [];
  body = record { bytes = text "compose"; read_error = none };
}

-- A server that is unavailable twice and then answers, and one that stays unavailable.
abbrev recovering : Network
recovering = record {
  is_done_waiting = λ i. false;
  request_error = λ i. none;
  answer = λ i header. success (respond (if leb i 1 then pos 503 else pos 200));
  is_done_after = λ i. false;
}

abbrev unavailable : Network
unavailable = record recovering { answer = λ i header. success (respond (pos 503)) }

abbrev fetched : FetchResult
fetched = record {
  body = text "compose";
  etag = text "v2";
  last_modified = [];
  not_modified = false;
}

unfoldable pub fetch_program : Unit {0}
unfolding int_eq text_eq ◌+ᵢ◌ is_retryable is_retryable_error read_with_limit accept_response
    do_fetch double_delay calculate_backoff fetch_from fetch
fetch_program = tt

recovered :
    fetch fetcher recovering (text "v1")
    ≡ record { result = success fetched; delays = pos 1_000_000_000 ∷ pos 2_000_000_000 ∷ [] }
unfolding fetch_program
recovered = refl

recovered-success : (fetch fetcher recovering (text "v1")).result ≡ success fetched
unfolding fetch_program
recovered-success = refl

fetch-IsAnswer_example :
    (i : ℕ) × (resp : Response) × (recovering.answer i (some (text "v1")) ≡ success resp)
    × IsAnswer 8 resp fetched
fetch-IsAnswer_example =
    fetch-IsAnswer fetcher recovering (text "v1") 8 fetched refl (omega arith) recovered-success

recovering-FailsOn : FailsOn fetcher recovering [] 0 2
unfolding fetch_program
recovering-FailsOn = (
  refl,
  (fetch_error (pos 503) (text "server error: status"), refl, refl),
  refl,
  (refl, (fetch_error (pos 503) (text "server error: status"), refl, refl), refl, tt),
)

recovering-ends : ends fetcher recovering [] (do_fetch fetcher recovering 2 []) ≡ true
unfolding fetch_program
recovering-ends = refl

unavailable-FailsOn : (k attempt : ℕ) → FailsOn fetcher unavailable [] attempt k
unfolding fetch_program
unavailable-FailsOn zero attempt = tt
unavailable-FailsOn (suc k) attempt = (
  ground arith,
  (fetch_error (pos 503) (text "server error: status"), refl, refl),
  refl,
  unavailable-FailsOn k (attempt + 1),
)
