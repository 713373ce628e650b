-- ===== src/Swarm/Pagination.antt =====
-- Listing by prefixes of the IDs: internal/swarm/pagination.go. The filters other than the prefix
-- stand in the list function.
use swarm_sentinel.Base.{
  ℕ, zero, suc, ◌-◌, leb, length, Text, text, text_eq, List, [], ◌∷◌, ◌++◌, contains, is_nil,
  Result, success, failure, if◌then◌else◌,
}

abbrev pub max_list_page_size : ℕ
max_list_page_size = 1000

abbrev pub max_id_prefix_depth : ℕ
max_id_prefix_depth = 2

abbrev pub id_prefix_characters : List ℕ
id_prefix_characters = text "0123456789abcdefghijklmnopqrstuvwxyz"

module _ {ℓ} {A : Type ℓ} (id_of : A → Text) where
  -- The results and the set of the IDs seen.
  abbrev pub Pages : Type ℓ
  Pages = List A × List Text

  -- appendUnique
  unfoldable pub append_unique : List A → Pages → Pages
  append_unique [] pages = pages
  append_unique (item ∷ items) (results, seen) =
      let id = id_of item in
      append_unique items (
        if is_nil id
        then (results, seen)
        else if contains seen id
        then (results, seen)
        else (results ++ (item ∷ []), id ∷ seen))

module _ {ℓ κ} {A : Type ℓ} {E : Type κ} (id_of : A → Text) where
  -- The loop over the characters, `page` being the listing of a prefix.
  unfoldable pub collect_pages :
      (Text → Result E (List A)) → Text → List ℕ → Pages id_of → Result E (List A)
  unfolding append_unique
  collect_pages page prefix [] (results, seen) = success results
  collect_pages page prefix (ch ∷ chars) pages = elim (page (prefix ++ (ch ∷ []))) [
    | failure e ↦ failure e
    | success items ↦ collect_pages page prefix chars (append_unique id_of items pages)
  ]

  -- paginateByIDPrefixDepth, with the levels that are left below the prefix
  unfoldable pub paginate_by_id_prefix_depth :
      (Text → Result E (List A)) → ℕ → Text → Result E (List A)
  paginate_by_id_prefix_depth list zero prefix = list prefix
  paginate_by_id_prefix_depth list (suc levels) prefix =
      let children =
        collect_pages (paginate_by_id_prefix_depth list levels) prefix id_prefix_characters
          ([], []) in
      elim (list prefix) [
        | failure e ↦ failure e
        | success items ↦ if leb (length items) max_list_page_size then success items else children
      ]

  -- paginateByIDPrefix: the prefixes of one character, and of two where a page is too long
  unfoldable pub paginate_by_id_prefix : (Text → Result E (List A)) → Result E (List A)
  paginate_by_id_prefix list =
      collect_pages (paginate_by_id_prefix_depth list (max_id_prefix_depth - 1)) []
        id_prefix_characters ([], [])
