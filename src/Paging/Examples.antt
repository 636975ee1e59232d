-- ===== src/Paging/Examples.antt =====
-- Five rows on pages of two.
use restaurant_management_ba.Base.{ℕ, ◌≡◌, refl, some, none, List, [], ◌∷◌, arith}
use restaurant_management_ba.Paging.Offsets.{
  or_number, get_pagination_offset, build_pagination_meta, paginate_response,
}
use restaurant_management_ba.Paging.Covered.{list_page, read_pages, list_page-covers}

abbrev rows : List ℕ
rows = 8 ∷ 6 ∷ 7 ∷ 5 ∷ 3 ∷ []

second_page : (list_page (some 2) (some 2) rows).items ≡ 7 ∷ 5 ∷ []
unfolding list_page get_pagination_offset paginate_response or_number
second_page = refl

three_pages : (list_page none (some 2) rows).pagination.total_pages ≡ 3
unfolding list_page build_pagination_meta paginate_response or_number
three_pages = refl

two_is_number : or_number (some 2) 20 ≡ 2
unfolding or_number
two_is_number = refl

list_page-covers_example :
    read_pages (list_page none (some 2) rows).pagination.total_pages (some 2) rows ≡ rows
list_page-covers_example = list_page-covers none (some 2) rows (omega (arith, two_is_number))
