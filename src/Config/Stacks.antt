-- ===== src/Config/Stacks.antt =====
-- Which lists of stacks validateMappings of internal/config/mapping.go accepts.
use swarm_sentinel.Base.{
  ℕ, suc, pos, ◌≤ℤ◌, Text, text_eq, List, [], ◌∷◌, All, false, not, inl, inr, ◌↔◌, ◌≡◌, refl, arith,
  contains, is_nil, success, Result-cases, require-eq-success, >>=-eq-success, ◌==◌,
}
use swarm_sentinel.Config.Url.{Parser, validate_http_url}
use swarm_sentinel.Config.Allowed.{
  IsHttpUrl, validate_http_url-IsHttpUrl, IsHttpUrl-validate_http_url,
}
use swarm_sentinel.Config.Mapping.{StackMapping, validate_mapping, validate_from, validate_mappings}

-- A stack has a name, a URL that may be fetched, and no negative timeout.
abbrev pub IsStack : Parser → StackMapping → Type 0
IsStack parse m =
    (is_nil m.name ≡ false)
    × (is_nil m.compose_url ≡ false)
    × IsHttpUrl parse m.compose_url
    × (pos 0 ≤ℤ m.timeout)

-- No name stands twice.
abbrev pub HasDistinctNames : List StackMapping → Type 0
HasDistinctNames [] = Unit
HasDistinctNames (m ∷ ms) = All (λ o. (o.name == m.name) ≡ false) ms × HasDistinctNames ms

-- The names are not among those seen.
abbrev AreNew : List Text → List StackMapping → Type 0
AreNew seen = All (λ o. contains seen o.name ≡ false)

validate_mapping-accepts :
    (parse : Parser) (i : ℕ) (seen : List Text) (m : StackMapping)
    → validate_mapping parse i seen m ≡ success tt
    → IsStack parse m × (contains seen m.name ≡ false)
unfolding validate_mapping
validate_mapping-accepts parse i seen m h =
    elim (Result-cases (validate_http_url parse m.compose_url)) [
      | inl (done, found) ↦ (
        (
          ground arith,
          ground arith,
          validate_http_url-IsHttpUrl parse m.compose_url found,
          ground arith,
        ),
        ground arith,
      )
      | inr (e, found) ↦ absurd (ground arith)
    ]

validate_mapping-accepted :
    (parse : Parser) (i : ℕ) (seen : List Text) (m : StackMapping)
    → IsStack parse m
    → contains seen m.name ≡ false
    → validate_mapping parse i seen m ≡ success tt
unfolding validate_mapping
validate_mapping-accepted parse i seen m (named, present, url, timeout) new =
    ground (arith, IsHttpUrl-validate_http_url parse m.compose_url url)

AreNew-cons :
    (name : Text) (seen : List Text) (ms : List StackMapping)
    → AreNew (name ∷ seen) ms
    → All (λ o. (o.name == name) ≡ false) ms × AreNew seen ms
AreNew-cons name seen [] h = (tt, tt)
AreNew-cons name seen (m ∷ ms) h = ground (arith, AreNew-cons name seen ms)

cons-AreNew :
    (name : Text) (seen : List Text) (ms : List StackMapping)
    → All (λ o. (o.name == name) ≡ false) ms
    → AreNew seen ms
    → AreNew (name ∷ seen) ms
cons-AreNew name seen [] h k = tt
cons-AreNew name seen (m ∷ ms) h k = ground (arith, cons-AreNew name seen ms)

validate_from-accepts :
    (parse : Parser) (i : ℕ) (seen : List Text) (ms : List StackMapping)
    → validate_from parse i seen ms ≡ success tt
    → All (IsStack parse) ms × HasDistinctNames ms × AreNew seen ms
unfolding validate_from
validate_from-accepts parse i seen [] h = (tt, tt, tt)
validate_from-accepts parse i seen (m ∷ ms) h =
    let (u, first, h') = >>=-eq-success (validate_mapping parse i seen m) _ h in
    let (stack, new) = validate_mapping-accepts parse i seen m first in
    let (stacks, distinct, others) = validate_from-accepts parse (suc i) (m.name ∷ seen) ms h' in
    let (differ, fresh) = AreNew-cons m.name seen ms others in
    ((stack, stacks), (differ, distinct), (new, fresh))

validate_from-accepted :
    (parse : Parser) (i : ℕ) (seen : List Text) (ms : List StackMapping)
    → All (IsStack parse) ms
    → HasDistinctNames ms
    → AreNew seen ms
    → validate_from parse i seen ms ≡ success tt
unfolding validate_from
validate_from-accepted parse i seen [] stacks distinct new = refl
validate_from-accepted parse i seen (m ∷ ms) (stack, stacks) (differ, distinct) (new, fresh) =
    rw (validate_mapping-accepted parse i seen m stack new) (
      validate_from-accepted parse (suc i) (m.name ∷ seen) ms stacks distinct
        (cons-AreNew m.name seen ms differ fresh))

All-AreNew : (ms : List StackMapping) → AreNew [] ms
All-AreNew [] = tt
All-AreNew (m ∷ ms) = (refl, All-AreNew ms)

-- validateMappings accepts a list of stacks exactly if there is one, every stack has a name, a URL
-- that validateHTTPURL lets through and no negative timeout, and no name stands twice.
pub validate_mappings_lem :
    (parse : Parser) (ms : List StackMapping)
    → (validate_mappings parse ms ≡ success tt)
      ↔ ((is_nil ms ≡ false) × All (IsStack parse) ms × HasDistinctNames ms)
unfolding validate_mappings
validate_mappings_lem parse ms = (
  λ h.
      let (some_ms, h') = require-eq-success (not (is_nil ms)) _ _ h in
      let (stacks, distinct, new) = validate_from-accepts parse 0 [] ms h' in
      (ground arith, stacks, distinct),
  λ (some_ms, stacks, distinct).
      let accepted = validate_from-accepted parse 0 [] ms stacks distinct (All-AreNew ms) in
      ground (arith, accepted),
)
