-- ===== src/Swarm/Paging.antt =====
-- Paging by prefixes against a server that lists by a prefix of the ID, as the Docker API documents
-- its filter `id`: internal/swarm/pagination.go.
use swarm_sentinel.Base.{
  ℕ, zero, suc, ◌+◌, ◌<◌, ◌≤◌, leb, length, length-append, Text, text_eq, nat_eq, has_prefix, List,
  [], ◌∷◌, ◌++◌, All, Bool, true, false, ◌&&◌, ◌||◌, contains, is_nil, Result, success, Bool-cases,
  inl, inr, ◌==◌, ◌≡◌, ◌∙◌, refl, sym, ap, arith,
}
use swarm_sentinel.Swarm.Pagination.{
  max_list_page_size, id_prefix_characters, Pages, append_unique, collect_pages,
  paginate_by_id_prefix_depth, paginate_by_id_prefix,
}
use swarm_sentinel.Swarm.Pages.{
  lists, Agrees, IsUnique, append_unique-Agrees, lists-append_unique, append_unique-IsUnique,
}

-- The text goes on after the prefix with one of the characters.
follows : Text → Text → List ℕ → Bool
follows i prefix [] = false
follows i prefix (ch ∷ chars) = has_prefix i (prefix ++ (ch ∷ [])) || follows i prefix chars

follows-head : (c : ℕ) (i : Text) (chars : List ℕ) → follows (c ∷ i) [] chars ≡ contains chars c
unfolding follows has_prefix
follows-head c i [] = refl
follows-head c i (ch ∷ chars) = ground (arith, follows-head c i chars)

follows-tail :
    (c p : ℕ) (i prefix : Text) (chars : List ℕ)
    → follows (c ∷ i) (p ∷ prefix) chars ≡ ((c == p) && follows i prefix chars)
unfolding follows has_prefix
follows-tail c p i prefix [] = ground arith
follows-tail c p i prefix (ch ∷ chars) = ground (arith, follows-tail c p i prefix chars)

has_prefix-cons :
    (c p : ℕ) (i prefix : Text)
    → has_prefix (c ∷ i) (p ∷ prefix) ≡ ((c == p) && has_prefix i prefix)
unfolding has_prefix
has_prefix-cons c p i prefix = ground arith

follows-has_prefix :
    (i prefix : Text) (chars : List ℕ)
    → All (λ c. contains chars c ≡ true) i
    → length prefix < length i
    → follows i prefix chars ≡ has_prefix i prefix
unfolding has_prefix
follows-has_prefix [] prefix chars known long = absurd (omega arith)
follows-has_prefix (c ∷ i) [] chars known long = follows-head c i chars ∙ known.0
follows-has_prefix (c ∷ i) (p ∷ prefix) chars known long =
    follows-tail c p i prefix chars
    ∙ ap (λ b. (c == p) && b) (follows-has_prefix i prefix chars known.1 (omega arith))
    ∙ sym (has_prefix-cons c p i prefix)

-- What goes on after a prefix is not empty.
has_prefix-is_nil :
    (i prefix : Text) (ch : ℕ) → (has_prefix i (prefix ++ (ch ∷ [])) && is_nil i) ≡ false
unfolding has_prefix
has_prefix-is_nil [] [] ch = refl
has_prefix-is_nil [] (p ∷ prefix) ch = refl
has_prefix-is_nil (c ∷ i) prefix ch = ground arith

module _ {ℓ} {A : Type ℓ} (id_of : A → Text) (all : List A) where
  -- The list holds the IDs with the prefix, of those of all the items.
  abbrev Covers : Text → List A → Type 0
  Covers prefix l = (i : Text) → lists id_of l i ≡ (has_prefix i prefix && lists id_of all i)

  -- The IDs are of the characters that paging tries, and have two of them at least.
  abbrev pub HasDockerIds : Type 0
  HasDockerIds =
      (i : Text)
      → lists id_of all i ≡ true
      → (2 ≤ length i) × All (λ c. contains id_prefix_characters c ≡ true) i

  follows-all :
      HasDockerIds
      → (i prefix : Text) → length prefix < 2
      → (follows i prefix id_prefix_characters && lists id_of all i)
        ≡ (has_prefix i prefix && lists id_of all i)
  follows-all ids i prefix short = elim (Bool-cases (lists id_of all i)) [
    | inl here ↦
        let (long, known) = ids i here in
        ap (λ b. b && lists id_of all i)
          (follows-has_prefix i prefix id_prefix_characters known (omega arith))
    | inr away ↦ ground arith
  ]

module _ {ℓ κ} {A : Type ℓ} {E : Type κ} (id_of : A → Text) (all : List A) where
  -- A listing by a prefix, as Docker documents it.
  abbrev pub ListsBy : (Text → Result E (List A)) → Text → Type (ℓ ⊔ κ)
  ListsBy list prefix = (l : List A) × (list prefix ≡ success l) × Covers id_of all prefix l

  -- The pages hold the IDs that follow one of the characters, beside those they held before.
  collect_pages_lem :
      (page : Text → Result E (List A)) (prefix : Text) (chars : List ℕ) (pages : Pages id_of)
      → ((ch : ℕ) → ListsBy page (prefix ++ (ch ∷ [])))
      → ((j : Text) → Agrees id_of pages j)
      → IsUnique id_of pages.0
      → (r : List A) × (collect_pages id_of page prefix chars pages ≡ success r)
        × IsUnique id_of r
        × ((i : Text)
            → lists id_of r i
              ≡ (lists id_of pages.0 i || (follows i prefix chars && lists id_of all i)))
  unfolding collect_pages follows
  collect_pages_lem page prefix [] (results, seen) by agree unique =
      (results, refl, unique, λ i. ground arith)
  collect_pages_lem page prefix (ch ∷ chars) pages by agree unique =
      let (items, e, covers) = by ch in
      let (r, e', u, rest) =
        collect_pages_lem page prefix chars (append_unique id_of items pages) by
          (λ j. append_unique-Agrees id_of items pages j (agree j))
          (append_unique-IsUnique id_of items pages agree unique) in
      (
        r,
        ground (arith, e),
        u,
        λ i.
            rest i
            ∙ ground (
              arith,
              lists-append_unique id_of items pages i agree,
              covers i,
              has_prefix-is_nil i prefix ch,
            ),
      )

  paginate_by_id_prefix_depth-ListsBy :
      (list : Text → Result E (List A)) (levels : ℕ) (prefix : Text)
      → HasDockerIds id_of all
      → ((p : Text) → ListsBy list p)
      → length prefix + levels ≤ 2
      → ListsBy (paginate_by_id_prefix_depth id_of list levels) prefix
  unfolding paginate_by_id_prefix_depth
  paginate_by_id_prefix_depth-ListsBy list zero prefix ids by short = by prefix
  paginate_by_id_prefix_depth-ListsBy list (suc levels) prefix ids by short =
      let (items, e, covers) = by prefix in
      let (r, e', u, rest) =
        collect_pages_lem (paginate_by_id_prefix_depth id_of list levels) prefix
          id_prefix_characters ([], [])
          (λ ch.
            paginate_by_id_prefix_depth-ListsBy list levels (prefix ++ (ch ∷ [])) ids by
              (omega (arith, length-append prefix (ch ∷ []))))
          (λ j. refl) tt in
      elim (Bool-cases (leb (length items) max_list_page_size)) [
        | inl fits ↦ (items, ground (arith, e), covers)
        | inr more ↦
            (r, ground (arith, e), λ i. rest i ∙ follows-all id_of all ids i prefix (omega arith))
      ]

  -- Where the listing by each prefix holds the items whose ID has that prefix, and the IDs are of
  -- two characters or more, all of them digits and lower-case letters, paging succeeds and returns
  -- the IDs of all the items, none of them twice.
  pub paginate_by_id_prefix_lem :
      (list : Text → Result E (List A))
      → HasDockerIds id_of all
      → ((p : Text) → ListsBy list p)
      → (r : List A) × (paginate_by_id_prefix id_of list ≡ success r)
        × IsUnique id_of r
        × ((i : Text) → lists id_of r i ≡ lists id_of all i)
  unfolding paginate_by_id_prefix has_prefix
  paginate_by_id_prefix_lem list ids by =
      let (r, e, u, rest) =
        collect_pages_lem (paginate_by_id_prefix_depth id_of list 1) [] id_prefix_characters
          ([], []) (λ ch. paginate_by_id_prefix_depth-ListsBy list 1 (ch ∷ []) ids by (omega arith))
          (λ j. refl) tt in
      (r, e, u, λ i. rest i ∙ follows-all id_of all ids i [] (omega arith))
