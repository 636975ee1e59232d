-- ===== src/Customers/Rows.antt =====
-- The rows of customers, their phone numbers and their addresses, and the reads of them.
use Prim.Native.String.{String}
use text.Mathlib.Text.{◌==◌ as str_eq}
use restaurant_management_ba.Base.{ℕ, Bool, not, ◌&&◌, Option, List, ◌==◌, is_some}
use restaurant_management_ba.Model.{TenantContext}
use restaurant_management_ba.Store.{find_first}
use restaurant_management_ba.Exec.{On, gets, or_throw, ◌>>=◌, not_found, said}

pub record Customer : Type 0 where
  pub id : ℕ
  pub restaurant_id : ℕ
  pub first_name : Option String
  pub last_name : Option String
  pub name : String
  pub phone : String
  pub notes : Option String
  pub deleted_at : Option ℕ

pub record CustomerPhone : Type 0 where
  pub restaurant_id : ℕ
  pub customer_id : ℕ
  pub phone : String
  pub is_default : Bool
  pub deleted_at : Option ℕ

pub record CustomerAddress : Type 0 where
  pub id : ℕ
  pub restaurant_id : ℕ
  pub customer_id : ℕ
  pub label : String
  pub street : Option String
  pub city : Option String
  pub state : Option String
  pub postal_code : Option String
  pub is_default : Bool
  pub deleted_at : Option ℕ

-- The tables of this part.
pub record People : Type 0 where
  pub customers : List Customer
  pub phones : List CustomerPhone
  pub addresses : List CustomerAddress

-- What a request takes from outside: the clock and the generator of identifiers.
pub record PeopleEnv : Type 0 where
  pub now : ℕ
  pub next_customer : People → ℕ
  pub next_address : People → ℕ

-- `where: { id: customerId, restaurantId, deletedAt: null }`
abbrev pub is_customer : ℕ → ℕ → Customer → Bool
is_customer restaurant id c =
    c.id == id && c.restaurant_id == restaurant && not (is_some c.deleted_at)

unfoldable pub find_customer_by_id : TenantContext → ℕ → People → Option Customer
find_customer_by_id ctx id s = find_first (is_customer ctx.restaurant_id id) s.customers

-- A row of the restaurant with the number, deleted or not: what the unique index looks at.
abbrev pub has_phone : ℕ → String → Customer → Bool
has_phone restaurant phone c = c.restaurant_id == restaurant && str_eq c.phone phone

-- `where: { restaurantId, phone, deletedAt: null }`
abbrev pub is_reached : ℕ → String → Customer → Bool
is_reached restaurant phone c = has_phone restaurant phone c && not (is_some c.deleted_at)

unfoldable pub find_customer_by_phone : TenantContext → String → People → Option Customer
find_customer_by_phone ctx phone s = find_first (is_reached ctx.restaurant_id phone) s.customers

unfoldable pub get_customer_by_id : TenantContext → ℕ → On People Customer
unfolding find_customer_by_id
get_customer_by_id ctx id = do
  or_throw (← gets (find_customer_by_id ctx id))
      (not_found (said "Customer not found or access denied"))

-- `where: { customerId, restaurantId, deletedAt: null }`
abbrev pub is_live_address : ℕ → ℕ → CustomerAddress → Bool
is_live_address restaurant customer a =
    a.customer_id == customer && a.restaurant_id == restaurant && not (is_some a.deleted_at)

-- The same with `id: addressId`.
abbrev pub is_address : ℕ → ℕ → ℕ → CustomerAddress → Bool
is_address restaurant customer id a = a.id == id && is_live_address restaurant customer a

unfoldable pub find_address_by_id : TenantContext → ℕ → ℕ → People → Option CustomerAddress
find_address_by_id ctx customer id s =
    find_first (is_address ctx.restaurant_id customer id) s.addresses
