-- ===== src/Base/Sort.antt =====
-- `sort.Strings` and `sort.Slice` by a text: the library's sort is taken as an insertion sort. On
-- distinct names every sort gives the same list.
pub mod Find
use Prim.Native.Nat.{ℕ, compare, Ordering}
use mathlib.Core.Path.{◌≡◌, refl}
use mathlib.Core.Bool.{Bool, true, false, ◌||◌}
use mathlib.Core.Logic.{ite, ◌⊎◌, inl, inr}
use mathlib.Core.List.{List, [], ◌∷◌, Perm}
use mathlib.Core.List.Perm
use native.Mathlib.Omega.{arith}
use swarm_sentinel.Base.Tests.{if◌then◌else◌, Bool-cases}
use swarm_sentinel.Base.Lists.{All, is_nil}
use swarm_sentinel.Base.Equality.{Eq, ◌==◌, contains}
use swarm_sentinel.Base.Bytes.{Text, text_eq}

-- Go's `a <= b` on strings: byte by byte.
unfoldable pub text_le : Text → Text → Bool
text_le [] ys = true
text_le (x ∷ xs) [] = false
text_le (x ∷ xs) (y ∷ ys) =
    let rest = text_le xs ys in
    elim (compare x y) [ Ordering.lt ↦ true | Ordering.eq ↦ rest | Ordering.gt ↦ false ]

pub text_le_total : (a b : Text) → text_le a b ≡ false → text_le b a ≡ true
unfolding text_le
text_le_total [] ys h = cc
text_le_total (x ∷ xs) [] h = refl
text_le_total (x ∷ xs) (y ∷ ys) h = ground (arith, text_le_total xs ys)

pub text_le_trans : (a b c : Text) → text_le a b ≡ true → text_le b c ≡ true → text_le a c ≡ true
unfolding text_le
text_le_trans [] b c h k = refl
text_le_trans (x ∷ xs) [] c h k = cc
text_le_trans (x ∷ xs) (y ∷ ys) [] h k = cc
text_le_trans (x ∷ xs) (y ∷ ys) (z ∷ zs) h k = ground (arith, text_le_trans xs ys zs)

pub text_le_antisym : (a b : Text) → text_le a b ≡ true → text_le b a ≡ true → a ≡ b
unfolding text_le
text_le_antisym [] [] h k = refl
text_le_antisym [] (y ∷ ys) h k = cc
text_le_antisym (x ∷ xs) [] h k = cc
text_le_antisym (x ∷ xs) (y ∷ ys) h k = ground (arith, text_le_antisym xs ys)

module _ {ℓ} {A : Type ℓ} (key : A → Text) where
  insert_sorted : A → List A → List A
  insert_sorted a [] = a ∷ []
  insert_sorted a (b ∷ l) = if text_le (key a) (key b) then a ∷ b ∷ l else b ∷ insert_sorted a l

  unfoldable pub sort_by : List A → List A
  unfolding insert_sorted text_le
  sort_by [] = []
  sort_by (a ∷ l) = insert_sorted a (sort_by l)

  -- In ascending order of the keys.
  abbrev pub IsSorted : List A → Type ℓ
  IsSorted [] = Unit
  IsSorted (a ∷ l) = All (λ b. text_le (key a) (key b) ≡ true) l × IsSorted l

  All-insert_sorted :
      (c : Text) (a : A) (l : List A)
      → text_le c (key a) ≡ true
      → All (λ b. text_le c (key b) ≡ true) l
      → All (λ b. text_le c (key b) ≡ true) (insert_sorted a l)
  unfolding insert_sorted
  All-insert_sorted c a [] h k = (h, tt)
  All-insert_sorted c a (b ∷ l) h k = ground (arith, All-insert_sorted c a l)

  All-le_trans :
      (c d : Text) (l : List A)
      → text_le c d ≡ true
      → All (λ b. text_le d (key b) ≡ true) l
      → All (λ b. text_le c (key b) ≡ true) l
  All-le_trans c d [] h k = tt
  All-le_trans c d (b ∷ l) h k = (text_le_trans c d (key b) h k.0, All-le_trans c d l h k.1)

  insert_sorted-IsSorted : (a : A) (l : List A) → IsSorted l → IsSorted (insert_sorted a l)
  unfolding insert_sorted
  insert_sorted-IsSorted a [] h = (tt, tt)
  insert_sorted-IsSorted a (b ∷ l) h = elim (Bool-cases (text_le (key a) (key b))) [
    | inl le ↦ rw le ((le, All-le_trans (key a) (key b) l le h.0), h)
    | inr gt ↦ rw gt (
      All-insert_sorted (key b) a l (text_le_total (key a) (key b) gt) h.0,
      insert_sorted-IsSorted a l h.1,
    )
  ]

  pub sort_by-IsSorted : (l : List A) → IsSorted (sort_by l)
  unfolding sort_by
  sort_by-IsSorted [] = tt
  sort_by-IsSorted (a ∷ l) = insert_sorted-IsSorted a (sort_by l) (sort_by-IsSorted l)

  insert_sorted-perm : (a : A) (l : List A) → Perm (insert_sorted a l) (a ∷ l)
  unfolding insert_sorted
  insert_sorted-perm a [] = Perm.refl (a ∷ [])
  insert_sorted-perm a (b ∷ l) = elim (Bool-cases (text_le (key a) (key b))) [
    | inl le ↦ rw le (Perm.refl (a ∷ b ∷ l))
    | inr gt ↦ rw gt (Perm.trans (Perm.cons b (insert_sorted-perm a l)) (Perm.swap a b l))
  ]

  -- Sorting loses nothing and invents nothing.
  pub sort_by-perm : (l : List A) → Perm (sort_by l) l
  unfolding sort_by
  sort_by-perm [] = Perm.refl []
  sort_by-perm (a ∷ l) =
      Perm.trans (insert_sorted-perm a (sort_by l)) (Perm.cons a (sort_by-perm l))

-- `sort.Strings`
unfoldable pub sort_texts : List Text → List Text
unfolding sort_by
sort_texts = sort_by (λ t. t)

contains-insert_sorted :
    (a b : Text) (l : List Text)
    → contains (insert_sorted (λ t. t) a l) b ≡ (b == a || contains l b)
unfolding insert_sorted
contains-insert_sorted a b [] = refl
contains-insert_sorted a b (c ∷ l) = ground (arith, contains-insert_sorted a b l)

pub contains-sort_texts : (l : List Text) (b : Text) → contains (sort_texts l) b ≡ contains l b
unfolding sort_texts
contains-sort_texts [] b = refl
contains-sort_texts (a ∷ l) b =
    ground (arith, contains-insert_sorted a b (sort_by (λ t. t) l), contains-sort_texts l b)

module _ {ℓ} {A : Type ℓ} (key : A → Text) where
  is_nil-insert_sorted : (a : A) (l : List A) → is_nil (insert_sorted key a l) ≡ false
  unfolding insert_sorted
  is_nil-insert_sorted a [] = refl
  is_nil-insert_sorted a (b ∷ l) = ground arith

  pub is_nil-sort_by : (l : List A) → is_nil (sort_by key l) ≡ is_nil l
  unfolding sort_by
  is_nil-sort_by [] = refl
  is_nil-sort_by (a ∷ l) = is_nil-insert_sorted a (sort_by key l)

pub sort_texts-IsSorted : (l : List Text) → IsSorted (λ t. t) (sort_texts l)
unfolding sort_texts
sort_texts-IsSorted l = sort_by-IsSorted (λ t. t) l
