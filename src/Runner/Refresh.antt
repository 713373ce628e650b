-- ===== src/Runner/Refresh.antt =====
-- How a runner follows the compose file: the first half of defaultRunOnce.
use swarm_sentinel.Base.{
  Text, text, text_eq, [], none, some, false, ◌==◌, is_nil, Result, success, failure, Result-cases,
  Bool-cases, inl, inr, ◌⊎◌, ◌≡◌, ◌≢◌, arith,
}
use swarm_sentinel.Compose.Types.{DesiredState, FetchResult}
use swarm_sentinel.Compose.Parse.{ParseError, parse_desired_state}
use swarm_sentinel.Runner.Types.{compose_invalid, runtime, external, Settings, Memory, World}
use swarm_sentinel.Runner.Cycle.{
  fingerprint, accept_body, accept_result, refresh_desired, default_run_once, run_once,
}

-- A fetch that fails ends the cycle: nothing is done, and the runner remembers what it did.
pub run_once-fetch_failed :
    (settings : Settings) (world : World) (memory : Memory) {fetch : Text → Result Text FetchResult}
    {e : Text}
    → world.canceled_at_start ≡ none
    → world.fetch ≡ some fetch
    → fetch memory.compose_etag ≡ failure e
    → run_once settings world memory ≡ record {
      memory = memory;
      effects = [];
      error = some (runtime (text "compose fetch") (external e));
    }
unfolding run_once default_run_once refresh_desired
run_once-fetch_failed settings world memory live has failed = ground arith

-- The desired state is the old one, or the one that the body parses to, with its fingerprint.
abbrev pub Follows : World → Memory → Memory → Text → Type 0
Follows world memory next body =
    ((next.last_desired_state ≡ memory.last_desired_state)
      × (next.compose_hash ≡ memory.compose_hash))
    ⊎ ((desired : DesiredState) × (parse_desired_state world.load_project body ≡ success desired)
        × (next.last_desired_state ≡ some desired)
        × (next.compose_hash ≡ world.sha256_hex body))

accept_body-Follows :
    (world : World) (body : Text) (memory : Memory)
    → (accept_body world body memory).1 ≡ none
    → Follows world memory (accept_body world body memory).0 body
unfolding accept_body fingerprint
accept_body-Follows world body memory fine = elim (Bool-cases (is_nil body)) [
  | inl empty ↦ absurd (ground arith)
  | inr full ↦ elim (Bool-cases (world.sha256_hex body == memory.compose_hash)) [
    | inl same ↦ inl (ground arith, ground arith)
    | inr new ↦ elim (Result-cases (parse_desired_state world.load_project body)) [
      | inr (e, failed) ↦ absurd (ground arith)
      | inl (desired, parsed) ↦ inr (desired, parsed, ground arith, ground arith)
    ]
  ]
]

accept_result-Follows :
    (world : World) (result : FetchResult) (memory : Memory)
    → (accept_result world result memory).1 ≡ none
    → Follows world memory (accept_result world result memory).0 result.body
unfolding accept_result
accept_result-Follows world result memory fine = elim (Bool-cases (is_nil result.etag)) [
  | inl untagged ↦ elim (Bool-cases result.not_modified) [
    | inl same ↦ inl (ground arith, ground arith)
    | inr sent ↦
        rw (untagged, sent, accept_result)
          (accept_body-Follows world result.body memory
            (rw (untagged, sent, accept_result) at fine))
  ]
  | inr tagged ↦ elim (Bool-cases result.not_modified) [
    | inl same ↦ inl (ground arith, ground arith)
    | inr sent ↦
        rw (tagged, sent, accept_result)
          (accept_body-Follows world result.body (record memory { compose_etag = result.etag })
            (rw (tagged, sent, accept_result) at fine))
  ]
]

-- A refresh with no error keeps the desired state and its fingerprint, or takes the state that the
-- fetched body parses to, with the fingerprint of that body.
pub refresh_desired_lem :
    (world : World) (memory : Memory) {fetch : Text → Result Text FetchResult}
    (result : FetchResult)
    → world.fetch ≡ some fetch
    → fetch memory.compose_etag ≡ success result
    → (refresh_desired world memory).1 ≡ none
    → Follows world memory (refresh_desired world memory).0 result.body
unfolding refresh_desired
refresh_desired_lem world memory result has fetched fine =
    rw (has, refresh_desired, fetched)
      (accept_result-Follows world result memory (rw (has, refresh_desired, fetched) at fine))

module _ (world : World) (memory : Memory) {fetch : Text → Result Text FetchResult}
    (result : FetchResult) {e : ParseError} (has : world.fetch ≡ some fetch)
    (answers : (etag : Text) → fetch etag ≡ success result) (sent : result.not_modified ≡ false)
    (some_body : result.body ≢ []) (new : world.sha256_hex result.body ≢ memory.compose_hash)
    (invalid : parse_desired_state world.load_project result.body ≡ failure e) where
  -- A new body that does not parse is reported once. As its fingerprint is remembered before it is
  -- parsed, the next fetch of the same body counts as unchanged: there is no error, and the runner
  -- goes on with the desired state from before, under the new fingerprint.
  pub invalid_compose_masked :
      let first = refresh_desired world memory in
      (first.1 ≡ some (runtime (text "compose parse") (compose_invalid e)))
      × (first.0.last_desired_state ≡ memory.last_desired_state)
      × (first.0.compose_hash ≡ world.sha256_hex result.body)
      × (refresh_desired world first.0 ≡ (first.0, none))
  unfolding refresh_desired accept_result accept_body fingerprint
  invalid_compose_masked = ground (arith, answers memory.compose_etag, answers result.etag)
