-- ===== src/Customers/Addresses.antt =====
-- addAddress, updateAddress and deleteAddress of the service with the repository's part, which reads the
-- customer or the address once more, with the same result. Other requests may write between a request's
-- read and its transaction: `between` is what they did.
use Prim.Native.String.{String}
use restaurant_management_ba.Base.{
  ℕ, Bool, true, false, not, ◌&&◌, ◌||◌, Option, none, some, List, [], ◌∷◌, ◌++◌, ◌==◌, leb,
  is_some, filled, if◌then◌else◌, or_text,
}
use restaurant_management_ba.Model.{TenantContext}
use restaurant_management_ba.Store.{find_last, count, update_many}
use restaurant_management_ba.Exec.{
  On, ok, pure, gets, modify, or_throw, ◌>>=◌, ◌>>◌, not_found, said,
}
use restaurant_management_ba.Customers.Rows.{
  CustomerAddress, People, PeopleEnv, is_live_address, is_address, find_customer_by_id,
  find_address_by_id, get_customer_by_id,
}
use restaurant_management_ba.Customers.Change.{given, given_text}

-- The body of a request; what is undefined in it is `none`.
pub record AddressPayload : Type 0 where
  pub label : Option String
  pub street : Option String
  pub city : Option String
  pub state : Option String
  pub postal_code : Option String
  pub is_default : Option Bool

-- `isDefault === true` and `isDefault === false`
abbrev pub is_true : Option Bool → Bool
is_true none = false
is_true (some b) = b

abbrev pub is_false : Option Bool → Bool
is_false none = false
is_false (some b) = not b

abbrev pub set_default : Bool → CustomerAddress → CustomerAddress
set_default b a = record a { is_default = b }

-- The default flag taken off every address of the customer.
unfoldable pub clear_defaults : ℕ → ℕ → List CustomerAddress → List CustomerAddress
clear_defaults r c rows = update_many (is_live_address r c) (set_default false) rows

-- `customer.addresses`, of the customer that findCustomerById includes them in.
unfoldable pub count_addresses : ℕ → People → ℕ
count_addresses customer s =
    count (λ a. a.customer_id == customer && not (is_some a.deleted_at)) s.addresses

unfoldable pub new_address : TenantContext → ℕ → AddressPayload → Bool → ℕ → CustomerAddress
new_address ctx customer payload default id = record {
  id = id;
  restaurant_id = ctx.restaurant_id;
  customer_id = customer;
  label = or_text payload.label "HOME";
  street = filled payload.street;
  city = filled payload.city;
  state = filled payload.state;
  postal_code = filled payload.postal_code;
  is_default = default;
  deleted_at = none;
}

-- The addresses after the transaction of createAddress.
unfoldable pub with_address : CustomerAddress → List CustomerAddress → List CustomerAddress
unfolding clear_defaults
with_address a rows =
    (if a.is_default then clear_defaults a.restaurant_id a.customer_id rows else rows) ++ (a ∷ [])

unfoldable pub create_address :
    PeopleEnv
    → (People → People)
    → TenantContext
    → ℕ
    → AddressPayload
    → On People (Option CustomerAddress)
unfolding find_customer_by_id count_addresses new_address with_address
create_address env between ctx customer payload s = elim (find_customer_by_id ctx customer s) [
  | none ↦ (ok none, s)
  | some _ ↦
      let default = count_addresses customer s == 0 || is_true payload.is_default in
      let t = between s in
      let a = new_address ctx customer payload default (env.next_address t) in
      (ok (some a), record t { addresses = with_address a t.addresses })
]

unfoldable pub add_address :
    PeopleEnv → (People → People) → TenantContext → ℕ → AddressPayload → On People CustomerAddress
unfolding get_customer_by_id create_address
add_address env between ctx customer payload = do
  get_customer_by_id ctx customer
  or_throw (← create_address env between ctx customer payload)
      (not_found (said "Customer not found or access denied"))

-- Another address of the customer, the newest, becomes the default; `true` if there is none.
unfoldable pub pass_default :
    ℕ → ℕ → (CustomerAddress → Bool) → List CustomerAddress → Bool × List CustomerAddress
pass_default r c other rows = elim (find_last (λ a. is_live_address r c a && other a) rows) [
  | none ↦ (true, rows)
  | some next ↦ (false, update_many (is_address r c next.id) (set_default true) rows)
]

-- The first half of the transaction of updateAddress: `effectiveIsDefault`, and the other addresses.
unfoldable pub settle_default :
    ℕ → ℕ → ℕ → Bool → Option Bool → List CustomerAddress → Option Bool × List CustomerAddress
unfolding clear_defaults pass_default
settle_default r c id was_default wanted rows =
    let (alone, passed) = pass_default r c (λ a. not (a.id == id)) rows in
    if is_true wanted
    then (wanted, clear_defaults r c rows)
    else if is_false wanted
        && was_default
        && leb (count (λ a. is_live_address r c a && a.is_default) rows) 1
    then (if alone then some true else wanted, passed)
    else (wanted, rows)

unfoldable pub write_address : AddressPayload → Option Bool → CustomerAddress → CustomerAddress
write_address payload default a = record a {
  label = given payload.label a.label;
  street = given_text payload.street a.street;
  city = given_text payload.city a.city;
  state = given_text payload.state a.state;
  postal_code = given_text payload.postal_code a.postal_code;
  is_default = given default a.is_default;
}

unfoldable pub update_address :
    (People → People) → TenantContext → ℕ → ℕ → AddressPayload → On People (Option CustomerAddress)
unfolding get_customer_by_id find_address_by_id settle_default write_address
update_address between ctx customer id payload = do
  get_customer_by_id ctx customer
  existing ←
      or_throw (← gets (find_address_by_id ctx customer id))
        (not_found (said "Address not found or access denied"))
  modify between
  modify (λ s.
      let (default, rows) =
        settle_default ctx.restaurant_id customer id existing.is_default payload.is_default
          s.addresses in
      record s {
        addresses =
            update_many (is_address ctx.restaurant_id customer id) (write_address payload default)
              rows;
      })
  gets (find_address_by_id ctx customer id)

abbrev pub discard : ℕ → CustomerAddress → CustomerAddress
discard now a = record a { deleted_at = some now; is_default = false }

-- The addresses after the transaction of softDeleteAddress.
unfoldable pub without_address : ℕ → ℕ → ℕ → ℕ → Bool → List CustomerAddress → List CustomerAddress
unfolding pass_default
without_address now r c id was_default rows =
    let left = update_many (is_address r c id) (discard now) rows in
    if was_default then (pass_default r c (λ _. true) left).1 else left

unfoldable pub delete_address :
    PeopleEnv → (People → People) → TenantContext → ℕ → ℕ → On People CustomerAddress
unfolding get_customer_by_id find_address_by_id without_address
delete_address env between ctx customer id = do
  get_customer_by_id ctx customer
  existing ←
      or_throw (← gets (find_address_by_id ctx customer id))
        (not_found (said "Address not found or access denied"))
  modify between
  modify (λ s. record s {
    addresses =
        without_address env.now ctx.restaurant_id customer id existing.is_default s.addresses;
  })
  pure existing
