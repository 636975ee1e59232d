-- ===== src/Paging/Covered.antt =====
-- The pages of a list put together.
use restaurant_management_ba.Base.{
  ℕ, zero, suc, ◌+◌, ◌-◌, ◌*◌, ◌≤◌, ◌≡◌, ap, ◌∙◌, max, Option, none, some, List, [], ◌++◌, length,
  arith,
}
use restaurant_management_ba.Paging.Offsets.{
  or_number, get_pagination_offset, build_pagination_meta, paginate_response, Page,
}
use restaurant_management_ba.Paging.Slices.{take, drop, take-++, take_all}
use restaurant_management_ba.Paging.Ceiling.{total_pages_le}

none_* : (n : ℕ) → 0 ≡ 0 * n
none_* n = omega arith

before_page : (n l : ℕ) → (max 1 (or_number (some (suc n)) 1) - 1) * l ≡ n * l
unfolding or_number
before_page n l = ap (λ k. k * l) (one_before n)
  where
    one_before : (k : ℕ) → max 1 (suc k) - 1 ≡ k
    one_before k = omega arith

next_page : (n l : ℕ) → suc n * l ≡ n * l + l
next_page n l = grind arith

module _ {ℓ} {A : Type ℓ} where
  -- findMany with `skip, take`, and the count of all the rows.
  unfoldable pub list_page : Option ℕ → Option ℕ → List A → Page A
  list_page page limit rows =
      let o = get_pagination_offset page limit in
      paginate_response (take o.take (drop o.skip rows)) (length rows) page limit

  -- The items of the first pages.
  unfoldable pub read_pages : ℕ → Option ℕ → List A → List A
  read_pages zero limit rows = []
  read_pages (suc n) limit rows =
      read_pages n limit rows ++ (list_page (some (suc n)) limit rows).items

  read_pages-take :
      (n : ℕ) (limit : Option ℕ) (rows : List A)
      → read_pages n limit rows ≡ take (n * (get_pagination_offset none limit).limit) rows
  unfolding read_pages list_page get_pagination_offset paginate_response
  read_pages-take zero limit rows =
      ap (λ k. take k rows) (none_* (get_pagination_offset none limit).limit)
  read_pages-take (suc n) limit rows =
      take-++ (n * (get_pagination_offset none limit).limit)
        (get_pagination_offset (some (suc n)) limit).skip (get_pagination_offset none limit).limit
        (suc n * (get_pagination_offset none limit).limit) rows (read_pages n limit rows)
        (read_pages-take n limit rows) (before_page n (get_pagination_offset none limit).limit)
        (next_page n (get_pagination_offset none limit).limit)

  -- Reading the pages one after the other, as many as the metadata of any page promises, gives every
  -- row once and in order, when the limit (20 if there is none) is at most 100 and the rows stay as they
  -- are.
  pub list_page-covers :
      (page limit : Option ℕ) (rows : List A)
      → or_number limit 20 ≤ 100
      → read_pages (list_page page limit rows).pagination.total_pages limit rows ≡ rows
  unfolding list_page paginate_response build_pagination_meta get_pagination_offset
  list_page-covers page limit rows h =
      read_pages-take (list_page page limit rows).pagination.total_pages limit rows
      ∙ take_all
          ((list_page page limit rows).pagination.total_pages
            * (get_pagination_offset none limit).limit)
          rows (total_pages_le (length rows) (or_number limit 20) h)
