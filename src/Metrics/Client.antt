-- ===== src/Metrics/Client.antt =====
-- What internal/metrics/metrics.go uses of the Prometheus client, and what that client documents.
use swarm_sentinel.Base.{
  ℕ, ℤ, Text, text_eq, List, [], ◌∷◌, Option, none, some, Bool, true, false, ◌&&◌, ◌==◌, Result,
  success, length, ltb, leb, not, ◌||◌, has_prefix, text, nat_eq, ◌≡◌, ◌⊎◌, ◌+◌, if◌then◌else◌, All,
}

pub data Kind : Type 0 where
  histogram : Kind
  gauge : Kind
  counter : Kind

-- A collector by the options and the names of the labels that it is made with. The help text and the
-- buckets are left out.
pub record Descriptor : Type 0 where
  pub kind : Kind
  pub name : Text
  pub labels : List Text

-- What has been given to the collectors: the value that each gauge was last set to, by name and values
-- of labels, the number of increments of each counter, and the observations of each histogram, the
-- last one first.
pub record View (Float : Type 0) : Type 0 where
  pub gauges : Text → List Text → Option Float
  pub counts : Text → List Text → ℕ
  pub observed : Text → List Float

abbrev pub same_labels : List Text → List Text → Bool
same_labels [] [] = true
same_labels (a ∷ ks) (b ∷ ls) = (a == b) && same_labels ks ls
same_labels [] (b ∷ ls) = false
same_labels (a ∷ ks) [] = false

abbrev pub same_series : Text → List Text → Text → List Text → Bool
same_series m ks n ls = (m == n) && same_labels ks ls

module _ {Float : Type 0} where
  abbrev pub blank : View Float
  blank = record { gauges = λ n ls. none; counts = λ n ls. 0; observed = λ n. [] }

  abbrev pub with_gauge : Text → List Text → Float → View Float → View Float
  with_gauge n ls v view = record view {
    gauges = λ m ks. if same_series m ks n ls then some v else view.gauges m ks;
  }

  abbrev pub with_count : Text → List Text → View Float → View Float
  with_count n ls view = record view {
    counts = λ m ks. if same_series m ks n ls then view.counts m ks + 1 else view.counts m ks;
  }

  abbrev pub with_observed : Text → Float → View Float → View Float
  with_observed n v view = record view {
    observed = λ m. if m == n then v ∷ view.observed m else view.observed m;
  }

-- NewRegistry, MustRegister and the calls on a registered collector, where a failure is a panic; the
-- values are Go's float64.
pub record Prometheus : Type 1 where
  pub Registry : Type 0
  pub Float : Type 0
  pub float64 : ℤ → Float
  pub seconds : ℤ → Float
  pub must_register : List Descriptor → Result Text Registry
  pub set : Text → List Text → Float → Registry → Result Text Registry
  pub inc : Text → List Text → Registry → Result Text Registry
  pub observe : Text → Float → Registry → Result Text Registry
  pub described : Registry → List Descriptor
  pub shows : Registry → View Float

-- No two collectors have the same name.
abbrev pub HaveDistinctNames : List Descriptor → Type 0
HaveDistinctNames [] = Unit
HaveDistinctNames (d ∷ ds) = All (λ e. (d.name == e.name) ≡ false) ds × HaveDistinctNames ds

-- A collector of this kind and name is among them, with so many labels.
abbrev pub Describes : Kind → Text → ℕ → List Descriptor → Type 0
Describes kind name arity [] = ⊥
Describes kind name arity (d ∷ ds) =
    ((d.kind ≡ kind) × (d.name ≡ name) × (length d.labels ≡ arity)) ⊎ Describes kind name arity ds

is_letter : ℕ → Bool
is_letter c = (leb b'a' c && leb c b'z') || (leb b'A' c && leb c b'Z') || leb c b'_' && leb b'_' c

is_digit : ℕ → Bool
is_digit c = leb b'0' c && leb c b'9'

-- Letters, digits and underscores, and colons where they are allowed.
is_word : Bool → Text → Bool
unfolding is_letter is_digit
is_word colons [] = true
is_word colons (c ∷ s) =
    (is_letter c || is_digit c || colons && leb c b':' && leb b':' c) && is_word colons s

-- A word that is not empty and does not begin with a digit.
is_name : Bool → Text → Bool
unfolding is_word is_digit
is_name colons [] = false
is_name colons (c ∷ s) = not (is_digit c) && is_word colons (c ∷ s)

is_among : Text → List Text → Bool
is_among l [] = false
is_among l (m ∷ ls) = l == m || is_among l ls

-- Names of labels that are not reserved and of which no two are the same.
are_label_names : List Text → Bool
unfolding is_name is_among has_prefix
are_label_names [] = true
are_label_names (l ∷ ls) =
    is_name false l && not (has_prefix l (text "__")) && not (is_among l ls) && are_label_names ls

-- The options and labels are such as the client documents for a collector of the kind.
unfoldable pub is_valid : Descriptor → Bool
unfolding is_name are_label_names is_among
is_valid d = is_name true d.name && are_label_names d.labels && elim d.kind [
  | histogram ↦ not (is_among (text "le") d.labels)
  | gauge ↦ true
  | counter ↦ true
]

-- The ranges of the bytes that are to follow the first byte of a character in UTF-8.
abbrev pub utf8_after : ℕ → Option (List (ℕ × ℕ))
utf8_after c =
    if ltb c 128
    then some []
    else if ltb c 194
    then none
    else if ltb c 224
    then some ((128, 191) ∷ [])
    else if ltb c 240
    then some (
        (if ltb c 225 then 160 else 128, if leb 237 c && leb c 237 then 159 else 191)
        ∷ (128, 191)
        ∷ [])
    else if ltb c 245
    then some (
        (if ltb c 241 then 144 else 128, if ltb c 244 then 191 else 143)
        ∷ (128, 191)
        ∷ (128, 191)
        ∷ [])
    else none

abbrev pub is_utf8_from : List (ℕ × ℕ) → Text → Bool
is_utf8_from [] [] = true
is_utf8_from (range ∷ ranges) [] = false
is_utf8_from [] (c ∷ s) = elim (utf8_after c) [ none ↦ false | some ranges ↦ is_utf8_from ranges s ]
is_utf8_from ((lo, hi) ∷ ranges) (c ∷ s) = leb lo c && leb c hi && is_utf8_from ranges s

-- The text is valid UTF-8.
abbrev pub IsUtf8 : Text → Type 0
IsUtf8 s = is_utf8_from [] s ≡ true

-- What the client documents: registering valid descriptors with distinct names does not panic, nor does a
-- call on a registered collector of the kind with a value in valid UTF-8 for each label, and each call
-- does what its name says.
pub record IsDocumented (p : Prometheus) : Type 0 where
  pub registers :
      (ds : List Descriptor)
      → HaveDistinctNames ds
      → All (λ d. is_valid d ≡ true) ds
      → (r : p.Registry) × (p.must_register ds ≡ success r)
        × (p.described r ≡ ds)
        × (p.shows r ≡ blank)
  pub sets :
      (name : Text) (labels : List Text) (value : p.Float) (r : p.Registry)
      → Describes gauge name (length labels) (p.described r)
      → All IsUtf8 labels
      → (s : p.Registry) × (p.set name labels value r ≡ success s)
        × (p.described s ≡ p.described r)
        × (p.shows s ≡ with_gauge name labels value (p.shows r))
  pub increments :
      (name : Text) (labels : List Text) (r : p.Registry)
      → Describes counter name (length labels) (p.described r)
      → All IsUtf8 labels
      → (s : p.Registry) × (p.inc name labels r ≡ success s)
        × (p.described s ≡ p.described r)
        × (p.shows s ≡ with_count name labels (p.shows r))
  pub observes :
      (name : Text) (value : p.Float) (r : p.Registry)
      → Describes histogram name 0 (p.described r)
      → (s : p.Registry) × (p.observe name value r ≡ success s)
        × (p.described s ≡ p.described r)
        × (p.shows s ≡ with_observed name value (p.shows r))
