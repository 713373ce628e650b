-- ===== src/Compose/Names.antt =====
-- normalizeNames of internal/compose/parse.go: sorted names with no repetition.
use mathlib.Core.Path.{subst}
use swarm_sentinel.Base.{
  Text, text_eq, List, [], ◌∷◌, true, false, not, ◌&&◌, ◌||◌, ◌==◌, contains, All, All-map,
  Bool-cases, inl, inr, is_nil, ◌≡◌, ◌≢◌, ◌∙◌, refl, arith, if◌then◌else◌,
}
use swarm_sentinel.Base.Sort.{
  text_le, text_le_trans, text_le_antisym, sort_texts, IsSorted, sort_texts-IsSorted,
  contains-sort_texts,
}

-- The loop that drops a name equal to the one before it.
unfoldable pub drop_repeats : Text → List Text → List Text
drop_repeats last [] = []
drop_repeats last (value ∷ values) =
    let again = drop_repeats last values in
    let fresh = value ∷ drop_repeats value values in if value == last then again else fresh

unfoldable pub normalize_names : List Text → List Text
normalize_names values = if is_nil values then [] else drop_repeats [] (sort_texts values)

-- In strictly ascending order.
abbrev pub IsStrict : List Text → Type 0
IsStrict [] = Unit
IsStrict (a ∷ l) = All (λ b. (text_le a b ≡ true) × (b ≢ a)) l × IsStrict l

contains-drop_repeats :
    (last : Text) (l : List Text) (t : Text)
    → (t == last || contains (drop_repeats last l) t) ≡ (t == last || contains l t)
unfolding drop_repeats
contains-drop_repeats last [] t = refl
contains-drop_repeats last (v ∷ l) t =
    ground (arith, contains-drop_repeats last l t, contains-drop_repeats v l t)

-- What is left follows the last name strictly.
drop_repeats-above :
    (last : Text) (l : List Text)
    → All (λ b. text_le last b ≡ true) l
    → IsSorted (λ x. x) l
    → All (λ b. (text_le last b ≡ true) × (b ≢ last)) (drop_repeats last l)
unfolding drop_repeats
drop_repeats-above last [] above sorted = tt
drop_repeats-above last (v ∷ l) above sorted = elim (Bool-cases (v == last)) [
  | inl same ↦ rw same (drop_repeats-above last l above.1 sorted.1)
  | inr new ↦
      let other : v ≢ last = λ e. ground arith in
      rw new (
        (above.0, other),
        All-map (λ b. (text_le v b ≡ true) × (b ≢ v)) (λ b. (text_le last b ≡ true) × (b ≢ last))
            (drop_repeats v l)
            (λ b above_v. (
              text_le_trans last v b above.0 above_v.0,
              λ e.
                  other
                    (text_le_antisym v last (subst (λ x. text_le v x ≡ true) e above_v.0) above.0),
            ))
            (drop_repeats-above v l sorted.0 sorted.1),
      )
]

drop_repeats-IsStrict :
    (last : Text) (l : List Text)
    → All (λ b. text_le last b ≡ true) l
    → IsSorted (λ x. x) l
    → IsStrict (drop_repeats last l)
unfolding drop_repeats
drop_repeats-IsStrict last [] above sorted = tt
drop_repeats-IsStrict last (v ∷ l) above sorted = elim (Bool-cases (v == last)) [
  | inl same ↦ rw same (drop_repeats-IsStrict last l above.1 sorted.1)
  | inr new ↦
      rw new (drop_repeats-above v l sorted.0 sorted.1, drop_repeats-IsStrict v l sorted.0 sorted.1)
]

All-nil_le : (l : List Text) → All (λ b. text_le [] b ≡ true) l
unfolding text_le
All-nil_le [] = tt
All-nil_le (a ∷ l) = (refl, All-nil_le l)

not-contains : (a : Text) (l : List Text) → All (λ b. b ≢ a) l → contains l a ≡ false
not-contains a [] h = refl
not-contains a (b ∷ l) h = ground (arith, not-contains a l h.1, h.0)

contains-drop_repeats_nil :
    (l : List Text) (t : Text)
    → IsSorted (λ x. x) l
    → contains (drop_repeats [] l) t ≡ (contains l t && not (is_nil t))
contains-drop_repeats_nil l [] sorted =
    not-contains [] (drop_repeats [] l) (
      All-map (λ b. (text_le [] b ≡ true) × (b ≢ [])) (λ b. b ≢ []) (drop_repeats [] l) (λ b h. h.1)
        (drop_repeats-above [] l (All-nil_le l) sorted))
    ∙ ground arith
contains-drop_repeats_nil l (c ∷ t) sorted = ground (arith, contains-drop_repeats [] l (c ∷ t))

-- normalizeNames returns the names of the list but the empty one, in strictly ascending order, so
-- each of them once.
pub normalize_names_lem :
    (values : List Text) (t : Text)
    → (contains (normalize_names values) t ≡ (contains values t && not (is_nil t)))
      × IsStrict (normalize_names values)
unfolding normalize_names
normalize_names_lem [] t = (refl, tt)
normalize_names_lem (v ∷ vs) t =
    let sorted = sort_texts (v ∷ vs) in
    let sorted_IsSorted : IsSorted (λ x. x) sorted = sort_texts-IsSorted (v ∷ vs) in
    (
      contains-drop_repeats_nil sorted t sorted_IsSorted ∙ rw contains-sort_texts,
      drop_repeats-IsStrict [] sorted (All-nil_le sorted) sorted_IsSorted,
    )
