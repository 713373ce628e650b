-- ===== src/Swarm/Pages.antt =====
-- What appendUnique of internal/swarm/pagination.go keeps: the IDs, each of them once.
use swarm_sentinel.Base.{
  Text, text_eq, List, [], ◌∷◌, ◌++◌, Bool, false, not, ◌&&◌, ◌||◌, contains, is_nil, ◌==◌, ◌≡◌,
  ◌∙◌, refl, arith,
}
use swarm_sentinel.Swarm.Pagination.{Pages, append_unique}

module _ {ℓ} {A : Type ℓ} (id_of : A → Text) where
  -- The item with this ID is in the list.
  abbrev pub lists : List A → Text → Bool
  lists [] i = false
  lists (a ∷ l) i = i == id_of a || lists l i

  lists-append : (l m : List A) (i : Text) → lists (l ++ m) i ≡ (lists l i || lists m i)
  lists-append [] m i = refl
  lists-append (a ∷ l) m i = ground (arith, lists-append l m i)

  -- The set holds the IDs of the results.
  abbrev pub Agrees : Pages id_of → Text → Type 0
  Agrees (results, seen) i = contains seen i ≡ lists results i

  pub append_unique-Agrees :
      (items : List A) (pages : Pages id_of) (i : Text)
      → Agrees pages i
      → Agrees (append_unique id_of items pages) i
  unfolding append_unique
  append_unique-Agrees [] pages i h = h
  append_unique-Agrees (a ∷ items) (results, seen) i h =
      append_unique-Agrees items _ i (ground (arith, lists-append results (a ∷ []) i))

  pub lists-append_unique :
      (items : List A) (pages : Pages id_of) (i : Text)
      → ((j : Text) → Agrees pages j)
      → lists (append_unique id_of items pages).0 i
        ≡ (lists pages.0 i || (lists items i && not (is_nil i)))
  unfolding append_unique
  lists-append_unique [] pages i h = ground arith
  lists-append_unique (a ∷ items) (results, seen) i h =
      lists-append_unique items _ i
        (λ j. ground (arith, lists-append results (a ∷ []) j, h j, h (id_of a)))
      ∙ ground (arith, lists-append results (a ∷ []) i, h i, h (id_of a))

  -- No ID stands twice.
  abbrev pub IsUnique : List A → Type 0
  IsUnique [] = Unit
  IsUnique (a ∷ l) = (lists l (id_of a) ≡ false) × IsUnique l

  IsUnique-append :
      (l : List A) (a : A) → IsUnique l → lists l (id_of a) ≡ false → IsUnique (l ++ (a ∷ []))
  IsUnique-append [] a u h = (refl, tt)
  IsUnique-append (b ∷ l) a u h =
      ground (arith, IsUnique-append l a, lists-append l (a ∷ []) (id_of b))

  pub append_unique-IsUnique :
      (items : List A) (pages : Pages id_of)
      → ((j : Text) → Agrees pages j)
      → IsUnique pages.0
      → IsUnique (append_unique id_of items pages).0
  unfolding append_unique
  append_unique-IsUnique [] pages h u = u
  append_unique-IsUnique (a ∷ items) (results, seen) h u =
      append_unique-IsUnique items _
        (λ j. ground (arith, lists-append results (a ∷ []) j, h j, h (id_of a)))
        (ground (arith, h (id_of a), IsUnique-append results a u))
