-- ===== src/Base/Sort/Find.antt =====
-- Search by a key in a list whose keys are distinct: sorting does not change what it finds.
use mathlib.Core.Path.{◌≡◌, ◌∙◌, refl}
use mathlib.Core.Option.{Option, none, some}
use mathlib.Core.List.{List, [], ◌∷◌}
use native.Mathlib.Omega.{arith}
use swarm_sentinel.Base.Tests.{if◌then◌else◌}
use swarm_sentinel.Base.Equality.{◌==◌, ==_iff}
use swarm_sentinel.Base.Bytes.{Text, text_eq}
use swarm_sentinel.Base.Sort.{insert_sorted, sort_by}

module _ {ℓ} {A : Type ℓ} (key : A → Text) where
  unfoldable pub find_by : Text → List A → Option A
  find_by k [] = none
  find_by k (a ∷ l) = if k == key a then some a else find_by k l

  abbrev pub IsDistinct : List A → Type ℓ
  IsDistinct [] = Unit
  IsDistinct (a ∷ l) = (find_by (key a) l ≡ none) × IsDistinct l

  find_by-insert_sorted :
      (k : Text) (a : A) (l : List A)
      → find_by (key a) l ≡ none
      → find_by k (insert_sorted key a l) ≡ (if k == key a then some a else find_by k l)
  unfolding find_by insert_sorted
  find_by-insert_sorted k a [] h = refl
  find_by-insert_sorted k a (b ∷ l) h = ground (arith, find_by-insert_sorted k a l)

  pub find_by-sort_by :
      (k : Text) (l : List A) → IsDistinct l → find_by k (sort_by key l) ≡ find_by k l
  unfolding find_by sort_by
  find_by-sort_by k [] d = refl
  find_by-sort_by k (a ∷ l) d =
      find_by-insert_sorted k a (sort_by key l) (find_by-sort_by (key a) l d.1 ∙ d.0)
      ∙ ground (arith, find_by-sort_by k l d.1)

  insert_sorted-IsDistinct :
      (a : A) (l : List A)
      → find_by (key a) l ≡ none
      → IsDistinct l
      → IsDistinct (insert_sorted key a l)
  unfolding find_by insert_sorted
  insert_sorted-IsDistinct a [] fresh d = (refl, tt)
  insert_sorted-IsDistinct a (b ∷ l) fresh (b_fresh, d) = ground (
    arith,
    insert_sorted-IsDistinct a l,
    find_by-insert_sorted (key b) a l,
    ==_iff (key a) (key b),
    ==_iff (key b) (key a),
  )

  pub sort_by-IsDistinct : (l : List A) → IsDistinct l → IsDistinct (sort_by key l)
  unfolding sort_by
  sort_by-IsDistinct [] d = tt
  sort_by-IsDistinct (a ∷ l) (fresh, d) =
      insert_sorted-IsDistinct a (sort_by key l) (find_by-sort_by (key a) l d ∙ fresh)
        (sort_by-IsDistinct l d)
