-- ===== src/Paging/Offsets.antt =====
-- getPaginationOffset, buildPaginationMeta and paginateResponse of src/shared/utils/pagination.js. A page or a
-- limit is a whole number that is not negative, or none where Number gives NaN or the default applies.
use restaurant_management_ba.Base.{
  ℕ, zero, suc, ◌+◌, ◌-◌, ◌*◌, ◌/◌, min, max, Option, none, some, List,
}

-- `number || other`
unfoldable pub or_number : Option ℕ → ℕ → ℕ
or_number none other = other
or_number (some zero) other = other
or_number (some (suc n)) other = suc n

pub record Offset : Type 0 where
  pub skip : ℕ
  pub take : ℕ
  pub page : ℕ
  pub limit : ℕ

unfoldable pub get_pagination_offset : Option ℕ → Option ℕ → Offset
get_pagination_offset page limit =
    let page_num = max 1 (or_number page 1) in
    let limit_num = min 100 (max 1 (or_number limit 20)) in
    record {
      skip = (page_num - 1) * limit_num;
      take = limit_num;
      page = page_num;
      limit = limit_num;
    }

pub record PaginationMeta : Type 0 where
  pub page : ℕ
  pub limit : ℕ
  pub total : ℕ
  pub total_pages : ℕ

-- `Math.ceil(total / limit)`
abbrev pub ceil_div : ℕ → ℕ → ℕ
ceil_div n m = (n + (m - 1)) / m

unfoldable pub build_pagination_meta : ℕ → Option ℕ → Option ℕ → PaginationMeta
build_pagination_meta total page limit =
    let limit_num = max 1 (or_number limit 20) in
    record {
      page = max 1 (or_number page 1);
      limit = limit_num;
      total = total;
      total_pages = or_number (some (ceil_div total limit_num)) 1;
    }

pub record Page {ℓ} (A : Type ℓ) : Type ℓ where
  pub items : List A
  pub pagination : PaginationMeta

unfoldable pub paginate_response {ℓ} : {A : Type ℓ} → List A → ℕ → Option ℕ → Option ℕ → Page A
paginate_response items total page limit = record {
  items = items;
  pagination = build_pagination_meta total page limit;
}
