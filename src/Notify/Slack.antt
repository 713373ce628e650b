-- ===== src/Notify/Slack.antt =====
-- The messages to Slack: internal/notify/slack.go. A block holds what the code puts in it.
use swarm_sentinel.Base.{
  ℕ, zero, suc, ◌+◌, ◌-◌, ◌/◌, ltb, length, take, drop, pos, decimal, Text, text, text_eq,
  concat_texts, join, List, [], ◌∷◌, ◌++◌, map, none, some, not, ◌&&◌, is_nil, if◌then◌else◌,
}
use swarm_sentinel.Health.Types.{
  ServiceStatus, status_text, DriftKind, missing, extra, extra_service, DriftDetail,
}
use swarm_sentinel.Transition.Types.{ReplicaChange, ImageChange, ServiceTransition}

pub data Block : Type 0 where
  header_block : Text → Block
  context_block : List Text → Block
  section_block : Text → List Text → Block

pub record WebhookMessage : Type 0 where
  pub summary : Text
  pub blocks : List Block

abbrev pub slack_max_blocks : ℕ
slack_max_blocks = 50

abbrev pub slack_max_transitions : ℕ
slack_max_transitions = 48

-- The signs outside ASCII, in UTF-8.
abbrev arrow : Text
arrow = 226 ∷ 134 ∷ 146 ∷ []

abbrev delta : Text
delta = 206 ∷ 148 ∷ []

abbrev bullet : Text
bullet = 226 ∷ 128 ∷ 162 ∷ []

abbrev line_break : Text
line_break = 10 ∷ []

unfoldable pub status_label : ServiceStatus → Text
status_label status =
    let label = status_text status in if is_nil label then text "UNKNOWN" else label

unfoldable pub format_replica_change : ReplicaChange → Text
unfolding concat_texts decimal
format_replica_change change = concat_texts (
    text "*Replicas:*"
    ∷ line_break
    ∷ text "Desired "
    ∷ decimal change.current_desired
    ∷ text " ("
    ∷ delta
    ∷ text " "
    ∷ decimal change.desired_delta
    ∷ text "), Running "
    ∷ decimal change.current_running
    ∷ text " ("
    ∷ delta
    ∷ text " "
    ∷ decimal change.running_delta
    ∷ text ")"
    ∷ [])

or_unknown : Text → Text
or_unknown t = if is_nil t then text "unknown" else t

unfoldable pub format_image_change : ImageChange → Text
unfolding concat_texts or_unknown
format_image_change change = concat_texts (
    text "*Image:*"
    ∷ line_break
    ∷ text "Desired `"
    ∷ or_unknown change.current_desired
    ∷ text "`"
    ∷ line_break
    ∷ text "Actual `"
    ∷ or_unknown change.current_actual
    ∷ text "`"
    ∷ [])

kind_text : DriftKind → Text
kind_text missing = text "MISSING"
kind_text extra = text "EXTRA"
kind_text extra_service = text "EXTRA_SERVICE"

-- The loop of formatDrift.
drift_part : DriftDetail → Text
unfolding concat_texts kind_text
drift_part detail =
    if not (is_nil detail.resource) && not (is_nil detail.name)
    then concat_texts
        (kind_text detail.kind ∷ text " " ∷ detail.resource ∷ text "/" ∷ detail.name ∷ [])
    else if not (is_nil detail.name)
    then concat_texts (kind_text detail.kind ∷ text " " ∷ detail.name ∷ [])
    else kind_text detail.kind

unfoldable pub format_drift : List DriftDetail → Text
unfolding concat_texts drift_part join
format_drift drift = concat_texts (
    text "*Drift:*"
    ∷ line_break
    ∷ bullet
    ∷ text " "
    ∷ join (map drift_part drift) (concat_texts (line_break ∷ bullet ∷ text " " ∷ []))
    ∷ [])

unfoldable pub build_transition_block : ServiceTransition → Block
unfolding concat_texts status_label format_replica_change format_image_change format_drift join
build_transition_block change =
    section_block
      (concat_texts (
        text "*"
        ∷ change.name
        ∷ text "*: `"
        ∷ status_label change.previous_status
        ∷ text "` "
        ∷ arrow
        ∷ text " `"
        ∷ status_label change.current_status
        ∷ text "`"
        ∷ []))
      ((if is_nil change.reasons
          then []
          else concat_texts (text "*Reasons:*" ∷ line_break ∷ join change.reasons (text ", ") ∷ [])
            ∷ [])
        ++ ((elim change.replica_change [ none ↦ [] | some r ↦ format_replica_change r ∷ [] ])
            ++ ((elim change.image_change [ none ↦ [] | some i ↦ format_image_change i ∷ [] ])
                ++ (if is_nil change.drift then [] else format_drift change.drift ∷ []))))

unfoldable pub build_slack_message : Text → List ServiceTransition → ℕ → ℕ → ℕ → WebhookMessage
unfolding concat_texts decimal build_transition_block
build_slack_message stack transitions total part_index part_total =
    let plain = concat_texts (
      text "Stack "
      ∷ stack
      ∷ text ": "
      ∷ decimal (pos total)
      ∷ text " service transition(s)"
      ∷ []) in
    let part = concat_texts (decimal (pos part_index) ∷ text "/" ∷ decimal (pos part_total) ∷ []) in
    let summary =
      if ltb 1 part_total
      then concat_texts (plain ∷ text " (part " ∷ part ∷ text ")" ∷ [])
      else plain in
    let batch = if ltb 1 part_total then (text "Batch: " ++ part) ∷ [] else [] in
    record {
      summary = summary;
      blocks =
          header_block summary
          ∷ context_block (concat_texts (text "Stack: *" ∷ stack ∷ text "*" ∷ []) ∷ batch)
          ∷ map build_transition_block transitions;
    }

module _ (stack : Text) (transitions : List ServiceTransition) (chunk_total : ℕ) where
  -- The loop of buildSlackMessages from the index on, with the turns that are left.
  unfoldable pub messages_from : ℕ → ℕ → List WebhookMessage
  messages_from zero i = []
  messages_from (suc left) i =
      let later = messages_from left (i + slack_max_transitions) in
      let total = length transitions in
      let end =
        if ltb total (i + slack_max_transitions) then total else i + slack_max_transitions in
      if ltb i total
      then build_slack_message stack (take (end - i) (drop i transitions)) total
          (i / slack_max_transitions + 1) chunk_total
        ∷ later
      else []

unfoldable pub build_slack_messages : Text → List ServiceTransition → List WebhookMessage
build_slack_messages stack transitions =
    let total = length transitions in
    let chunk_total = (total + slack_max_transitions - 1) / slack_max_transitions in
    messages_from stack transitions chunk_total total 0
