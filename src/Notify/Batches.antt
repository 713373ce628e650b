-- ===== src/Notify/Batches.antt =====
-- How internal/notify/slack.go spreads the transitions over messages.
use swarm_sentinel.Base.{
  ℕ, zero, suc, ◌+◌, ◌-◌, ◌/◌, ◌<◌, ◌≤◌, ltb, length, length-take-le, take-all, take-append-drop,
  take, drop, Text, List, [], ◌∷◌, ◌++◌, map, All, Bool-cases, inl, inr, ◌≡◌, ◌∙◌, refl, sym, ap,
  ap₂, arith, if◌then◌else◌,
}
use mathlib.Core.List.{append-nil}
use swarm_sentinel.Transition.Types.{ServiceTransition}
use swarm_sentinel.Notify.Slack.{
  Block, header_block, context_block, section_block, WebhookMessage, slack_max_blocks,
  slack_max_transitions, build_transition_block, build_slack_message, messages_from,
  build_slack_messages,
}

-- The sections of a message.
abbrev pub sections_of : List Block → List Block
sections_of [] = []
sections_of (header_block t ∷ blocks) = sections_of blocks
sections_of (context_block ts ∷ blocks) = sections_of blocks
sections_of (section_block t fields ∷ blocks) = section_block t fields ∷ sections_of blocks

-- The sections of all the messages, in their order.
abbrev pub all_sections : List WebhookMessage → List Block
all_sections [] = []
all_sections (m ∷ ms) = sections_of m.blocks ++ all_sections ms

drop-all : (n : ℕ) (l : List ServiceTransition) → length l ≤ n → drop n l ≡ []
drop-all zero [] h = refl
drop-all zero (x ∷ l) h = absurd (omega arith)
drop-all (suc n) [] h = refl
drop-all (suc n) (x ∷ l) h = drop-all n l (omega arith)

drop-drop : (m n : ℕ) (l : List ServiceTransition) → drop n (drop m l) ≡ drop (m + n) l
drop-drop zero n l = ap (λ k. drop k l) (omega arith)
drop-drop (suc m) zero [] = let same : suc m + 0 ≡ suc m = omega arith in rw same refl
drop-drop (suc m) (suc n) [] =
    let same : suc m + suc n ≡ suc (m + suc n) = omega arith in rw same refl
drop-drop (suc m) n (x ∷ l) =
    let same : suc m + n ≡ suc (m + n) = omega arith in rw same (drop-drop m n l)

length-drop : (n : ℕ) (l : List ServiceTransition) → length (drop n l) ≡ length l - n
length-drop zero l = omega arith
length-drop (suc n) [] = omega arith
length-drop (suc n) (x ∷ l) = omega (arith, length-drop n l)

sections_of-map :
    (l : List ServiceTransition)
    → sections_of (map build_transition_block l) ≡ map build_transition_block l
unfolding build_transition_block
sections_of-map [] = refl
sections_of-map (t ∷ l) = ap (◌∷◌ (build_transition_block t)) (sections_of-map l)

map-append :
    (l m : List ServiceTransition)
    → map build_transition_block (l ++ m)
      ≡ map build_transition_block l ++ map build_transition_block m
map-append [] m = refl
map-append (t ∷ l) m = ap (◌∷◌ (build_transition_block t)) (map-append l m)

length-map : (l : List ServiceTransition) → length (map build_transition_block l) ≡ length l
length-map [] = refl
length-map (t ∷ l) = ap suc (length-map l)

module _ (stack : Text) (transitions : List ServiceTransition) (chunk_total : ℕ) where
  -- One turn of the loop and the rest take up the transitions from the index on.
  chunk-append :
      (i : ℕ)
      → i < length transitions
      → take
            ((if ltb (length transitions) (i + 48) then length transitions else i + 48) - i)
            (drop i transitions)
          ++ drop (i + 48) transitions
        ≡ drop i transitions
  chunk-append i inside = elim (Bool-cases (ltb (length transitions) (i + 48))) [
    | inl short ↦
        let rest : drop (i + 48) transitions ≡ [] = drop-all (i + 48) transitions (ground arith) in
        let all : take (length transitions - i) (drop i transitions) ≡ drop i transitions =
          take-all (length transitions - i) (drop i transitions)
            (omega (arith, length-drop i transitions)) in
        rw (short, rest, all) (append-nil (drop i transitions))
    | inr long ↦
        let size : i + 48 - i ≡ 48 = omega arith in
        rw (long, size, sym (drop-drop i 48 transitions)) (take-append-drop 48 (drop i transitions))
  ]

  messages_from-sections :
      (left i : ℕ)
      → length transitions ≤ left + i
      → all_sections (messages_from stack transitions chunk_total left i)
        ≡ map build_transition_block (drop i transitions)
  unfolding messages_from build_slack_message
  messages_from-sections zero i enough =
      ap (map build_transition_block) (sym (drop-all i transitions (omega arith)))
  messages_from-sections (suc left) i enough = elim (Bool-cases (ltb i (length transitions))) [
    | inl inside ↦
        let chunk =
          take ((if ltb (length transitions) (i + 48) then length transitions else i + 48) - i)
            (drop i transitions) in
        rw inside (
          ap₂ ◌++◌ (sections_of-map chunk) (messages_from-sections left (i + 48) (omega arith))
          ∙ sym (map-append chunk (drop (i + 48) transitions))
          ∙ ap (map build_transition_block) (chunk-append i (ground arith)))
    | inr outside ↦
        rw outside (ap (map build_transition_block) (sym (drop-all i transitions (ground arith))))
  ]

  messages_from-blocks :
      (left i : ℕ)
      → All
          (λ m. length m.blocks ≤ slack_max_blocks)
          (messages_from stack transitions chunk_total left i)
  unfolding messages_from build_slack_message
  messages_from-blocks zero i = tt
  messages_from-blocks (suc left) i =
      let k = (if ltb (length transitions) (i + 48) then length transitions else i + 48) - i in
      let small : k ≤ 48 = ground arith in
      let later = messages_from-blocks left (i + 48) in
      elim (Bool-cases (ltb i (length transitions))) [
        | inl inside ↦ rw inside (
          omega (
            arith,
            length-map (take k (drop i transitions)),
            length-take-le k (drop i transitions),
          ),
          later,
        )
        | inr outside ↦ rw outside tt
      ]

  messages_from-count :
      (left i : ℕ)
      → length transitions ≤ left + i
      → length (messages_from stack transitions chunk_total left i)
        ≡ (length transitions - i + 47) / 48
  unfolding messages_from
  messages_from-count zero i enough = omega arith
  messages_from-count (suc left) i enough =
      let later = messages_from-count left (i + 48) (omega arith) in
      elim (Bool-cases (ltb i (length transitions))) [
        | inl inside ↦
            let inside' : i < length transitions = ground arith in
            rw inside (omega (arith, later, inside'))
        | inr outside ↦
            let outside' : length transitions ≤ i = ground arith in
            rw outside (omega (arith, outside'))
      ]

-- The messages to Slack keep to 50 blocks each, hold the block of every transition once and in
-- order, and are as many as the number of parts that they name: the transitions in batches of 48.
pub build_slack_messages_lem :
    (stack : Text) (transitions : List ServiceTransition)
    → All (λ m. length m.blocks ≤ slack_max_blocks) (build_slack_messages stack transitions)
      × (all_sections (build_slack_messages stack transitions)
          ≡ map build_transition_block transitions)
      × (length (build_slack_messages stack transitions) ≡ (length transitions + 48 - 1) / 48)
unfolding build_slack_messages
build_slack_messages_lem stack transitions =
    let total = length transitions in
    let parts = (total + slack_max_transitions - 1) / slack_max_transitions in
    (
      messages_from-blocks stack transitions parts total 0,
      messages_from-sections stack transitions parts total 0 (omega arith),
      omega (arith, messages_from-count stack transitions parts total 0 (omega arith)),
    )
