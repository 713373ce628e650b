-- ===== src/Tests/Notify.antt =====
-- Messages to Slack for a concrete notice, posts, and a fan-out.
use swarm_sentinel.Base.{
  ◌+◌, ◌-◌, ◌/◌, ◌≤◌, length, ℤ, pos, int_eq, nat_eq, wrap64, of_bits, text, text_eq, concat_texts,
  trim_space, [], ◌∷◌, map, All, none, some, false, success, ◌≡◌, refl, arith,
}
use swarm_sentinel.Base.Numeral.{atoi, digits_value}
use swarm_sentinel.Health.Types.{ok, failed}
use swarm_sentinel.Transition.Types.{ServiceTransition}
use swarm_sentinel.Notify.Slack.{slack_max_blocks, build_transition_block, build_slack_messages}
use swarm_sentinel.Notify.Batches.{all_sections, build_slack_messages_lem}
use swarm_sentinel.Notify.Poster.{
  UntilDate, parse_retry_after, judge_response, Attempt, post_once, running, judge_attempt,
  post_with_retry,
}
use swarm_sentinel.Notify.Posting.{
  parse_retry_after-seconds, wait_of, IsRateLimited, post_with_retry-rate_limited,
}
use swarm_sentinel.Notify.Fanout.{Notifier, notify_each, multi_notifier}

abbrev api_fails : ServiceTransition
api_fails = record {
  name = text "api";
  previous_status = ok;
  current_status = failed;
  reasons = text "missing service" ∷ [];
  drift = [];
  replica_change = none;
  image_change = none;
}

build_slack_messages_lem_example :
    All
      (λ m. length m.blocks ≤ slack_max_blocks)
      (build_slack_messages (text "shop") (api_fails ∷ []))
    × (all_sections (build_slack_messages (text "shop") (api_fails ∷ []))
        ≡ map build_transition_block (api_fails ∷ []))
    × (length (build_slack_messages (text "shop") (api_fails ∷ [])) ≡ (1 + 48 - 1) / 48)
build_slack_messages_lem_example = build_slack_messages_lem (text "shop") (api_fails ∷ [])

abbrev in_a_minute : UntilDate
in_a_minute date = none

parse_retry_after-seconds_example :
    parse_retry_after in_a_minute (text "18446744074") ≡ some (wait_of 18_446_744_074)
unfolding atoi digits_value nat_eq
parse_retry_after-seconds_example =
    parse_retry_after-seconds in_a_minute (text "18446744074") 18_446_744_074 refl (omega arith)

-- Above 18446744073 seconds the wait can be positive again.
wraps_again : wait_of 18_446_744_074 ≡ pos 290_448_384
wraps_again = refl

abbrev answered : ℤ → Attempt
answered code = record {
  build_error = none;
  answer =
      success
        (record { status_code = code; status = text "status"; retry_after = text "60"; body = [] });
  until_date = in_a_minute;
  next_backoff = none;
  is_done_sleeping = false;
}

unfoldable pub post_program : Unit {0}
unfolding text_eq int_eq nat_eq atoi digits_value wrap64 of_bits parse_retry_after concat_texts
    trim_space judge_response post_once judge_attempt post_with_retry
post_program = tt

post_with_retry-rate_limited_example :
    let attempts = answered (pos 429) ∷ answered (pos 429) ∷ [] in
    ((post_with_retry (text "slack") attempts).end ≡ running)
    × ((post_with_retry (text "slack") attempts).requests ≡ length attempts)
unfolding post_program
post_with_retry-rate_limited_example =
    let limited : IsRateLimited (answered (pos 429)) =
      (refl, (_, pos 60_000_000_000, refl, refl, refl), refl) in
    post_with_retry-rate_limited (text "slack") (answered (pos 429) ∷ answered (pos 429) ∷ [])
      (limited, (limited, tt))

abbrev fails : Notifier
fails stack transitions = record { posts = text "x" ∷ []; error = some (text "down") }

abbrev works : Notifier
works stack transitions = record { posts = text "y" ∷ []; error = none }

both_asked :
    multi_notifier (fails ∷ works ∷ []) (text "shop") (api_fails ∷ [])
    ≡ record { posts = text "x" ∷ text "y" ∷ []; error = some (text "down") }
unfolding multi_notifier notify_each
both_asked = refl
