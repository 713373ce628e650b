-- ===== src/Notify/Fanout.antt =====
-- The notifiers: Notify of internal/notify/slack.go, webhook.go, multi.go, noop.go and dry_run.go. A
-- notifier is what its Notify does: the payloads that it posts and the error that it returns.
use swarm_sentinel.Base.{
  Text, text, concat_texts, List, [], ◌∷◌, ◌++◌, Option, none, some, is_nil, Result, success,
  failure, ◌≡◌, arith, if◌then◌else◌,
}
use swarm_sentinel.Transition.Types.{ServiceTransition}
use swarm_sentinel.Notify.Slack.{WebhookMessage, build_slack_messages}

pub record Delivery : Type 0 where
  pub posts : List Text
  pub error : Option Text

abbrev pub Notifier : Type 0
Notifier = Text → List ServiceTransition → Delivery

abbrev pub nothing_sent : Delivery
nothing_sent = record { posts = []; error = none }

-- NoopNotifier and DryRunNotifier
unfoldable pub noop_notifier : Notifier
noop_notifier stack transitions = nothing_sent

unfoldable pub dry_run_notifier : Notifier → Notifier
dry_run_notifier inner stack transitions = nothing_sent

-- What a notifier with a poster meets: the error of waiting for the rate limit of a stack, and the
-- error of postWithRetry for a payload.
pub record Channel : Type 0 where
  pub rate_limit_error : Text → Option Text
  pub post_error : Text → Option Text

-- The stack as the notifiers name it.
unfoldable pub notified_stack : Text → Text
notified_stack stack = if is_nil stack then text "default" else stack

-- The loop over the messages to Slack, with json.Marshal a parameter.
unfoldable pub post_messages :
    Channel → (WebhookMessage → Result Text Text) → List WebhookMessage → Delivery
unfolding concat_texts
post_messages channel marshal [] = nothing_sent
post_messages channel marshal (message ∷ messages) =
    let later = post_messages channel marshal messages in
    elim (marshal message) [
      | failure e ↦ record {
        posts = [];
        error = some (concat_texts (text "marshal slack payload: " ∷ e ∷ []));
      }
      | success payload ↦ elim (channel.post_error payload) [
        | some e ↦ record { posts = payload ∷ []; error = some e }
        | none ↦ record later { posts = payload ∷ later.posts }
      ]
    ]

-- SlackNotifier.Notify
unfoldable pub slack_notifier : Channel → (WebhookMessage → Result Text Text) → Notifier
unfolding notified_stack post_messages build_slack_messages
slack_notifier channel marshal stack transitions =
    let name = notified_stack stack in
    let sent = post_messages channel marshal (build_slack_messages name transitions) in
    if is_nil transitions then nothing_sent else (elim (channel.rate_limit_error name) [
      | some e ↦ record { posts = []; error = some e }
      | none ↦ sent
    ])

-- NewSlackNotifier
unfoldable pub new_slack_notifier : Text → Channel → (WebhookMessage → Result Text Text) → Notifier
unfolding slack_notifier noop_notifier
new_slack_notifier webhook_url channel marshal =
    if is_nil webhook_url then noop_notifier else slack_notifier channel marshal

-- WebhookNotifier.Notify, with the template a parameter
unfoldable pub webhook_notifier :
    Channel → (Text → List ServiceTransition → Result Text Text) → Notifier
unfolding notified_stack concat_texts
webhook_notifier channel render stack transitions =
    let name = notified_stack stack in
    if is_nil transitions then nothing_sent else (elim (channel.rate_limit_error name) [
      | some e ↦ record { posts = []; error = some e }
      | none ↦ elim (render name transitions) [
        | failure e ↦ record {
          posts = [];
          error = some (concat_texts (text "render webhook template: " ∷ e ∷ []));
        }
        | success payload ↦ record { posts = payload ∷ []; error = channel.post_error payload }
      ]
    ])

-- NewWebhookNotifier: none, whose Notify does nothing, for an empty URL. Parsing the template is a
-- parameter that gives what renders it.
unfoldable pub new_webhook_notifier :
    Text
    → Text
    → Channel
    → (Text → Result Text (Text → List ServiceTransition → Result Text Text))
    → Result Text (Option Notifier)
unfolding webhook_notifier concat_texts
new_webhook_notifier webhook_url template channel parse =
    let default_template =
      text "{\"stack\":\"{{ .Stack }}\",\"transitions\":{{ toJson .Transitions }}}" in
    if is_nil webhook_url
    then success none
    else (elim (parse (if is_nil template then default_template else template)) [
      | failure e ↦ failure (concat_texts (text "parse webhook template: " ∷ e ∷ []))
      | success render ↦ success (some (webhook_notifier channel render))
    ])

-- What a *WebhookNotifier is as a Notifier: a nil one is no nil interface, and its Notify does nothing.
abbrev pub as_notifier : Option Notifier → Notifier
as_notifier none = noop_notifier
as_notifier (some notifier) = notifier

-- NewMultiNotifier: a nil notifier is left out
unfoldable pub new_multi_notifier : List (Option Notifier) → List Notifier
new_multi_notifier [] = []
new_multi_notifier (none ∷ notifiers) = new_multi_notifier notifiers
new_multi_notifier (some notifier ∷ notifiers) = notifier ∷ new_multi_notifier notifiers

-- The loop of MultiNotifier.Notify, with the first error so far.
unfoldable pub notify_each : List Notifier → Text → List ServiceTransition → Option Text → Delivery
notify_each [] stack transitions first = record { posts = []; error = first }
notify_each (notifier ∷ notifiers) stack transitions first =
    let own = notifier stack transitions in
    let rest =
      notify_each notifiers stack transitions (elim first [ some e ↦ some e | none ↦ own.error ]) in
    record rest { posts = own.posts ++ rest.posts }

-- MultiNotifier.Notify
unfoldable pub multi_notifier : List Notifier → Notifier
unfolding notify_each
multi_notifier notifiers stack transitions = notify_each notifiers stack transitions none

-- What each of the notifiers posts by itself, and the first of their errors.
abbrev pub all_posts : List Notifier → Text → List ServiceTransition → List Text
all_posts [] stack transitions = []
all_posts (notifier ∷ notifiers) stack transitions =
    (notifier stack transitions).posts ++ all_posts notifiers stack transitions

abbrev pub first_error : List Notifier → Text → List ServiceTransition → Option Text
first_error [] stack transitions = none
first_error (notifier ∷ notifiers) stack transitions = elim (notifier stack transitions).error [
  | some e ↦ some e
  | none ↦ first_error notifiers stack transitions
]

notify_each_lem :
    (notifiers : List Notifier) (stack : Text) (transitions : List ServiceTransition)
    (first : Option Text)
    → notify_each notifiers stack transitions first ≡ record {
      posts = all_posts notifiers stack transitions;
      error = elim first [ some e ↦ some e | none ↦ first_error notifiers stack transitions ];
    }
unfolding notify_each
notify_each_lem [] stack transitions first = ground arith
notify_each_lem (notifier ∷ notifiers) stack transitions first = ground (
  arith,
  notify_each_lem notifiers stack transitions
      (elim first [ some e ↦ some e | none ↦ (notifier stack transitions).error ]),
)

-- MultiNotifier asks every notifier, whether or not those before it fail, so that each posts what it
-- posts by itself; it returns the first of their errors.
pub multi_notifier_lem :
    (notifiers : List Notifier) (stack : Text) (transitions : List ServiceTransition)
    → multi_notifier notifiers stack transitions ≡ record {
      posts = all_posts notifiers stack transitions;
      error = first_error notifiers stack transitions;
    }
unfolding multi_notifier
multi_notifier_lem notifiers stack transitions = notify_each_lem notifiers stack transitions none
