-- ===== src/Customers/Change.antt =====
-- createCustomer, updateCustomer and deleteCustomer, of the service with the repository's part, and
-- findOrCreateCustomerByPhone.
use Prim.Native.String.{String, ◌++◌ as str_append}
use text.Mathlib.Text.{◌==◌ as str_eq}
use restaurant_management_ba.Base.{
  ℕ, Bool, true, false, not, ◌&&◌, Option, none, some, List, [], ◌∷◌, ◌++◌, ◌==◌, is_some, filled,
  trim, split_spaces, join_spaces, if◌then◌else◌, or_text,
}
use restaurant_management_ba.Model.{TenantContext}
use restaurant_management_ba.Store.{count, update_many, delete_many}
use restaurant_management_ba.Exec.{
  On, Error, ok, err, pure, throw, throw_if, gets, modify, when, or_throw, transaction,
  on_violation, ◌>>=◌, ◌>>◌, unique_violation, conflict, not_found, said, said_of,
}
use restaurant_management_ba.Customers.Rows.{
  Customer, CustomerPhone, People, PeopleEnv, is_customer, has_phone, find_customer_by_id,
  find_customer_by_phone, get_customer_by_id,
}
use restaurant_management_ba.Customers.Names.{
  NameFields, Names, normalize_name, dedupe, trim_phones,
}

-- The bodies of the requests, as the routes' schemas let them through.
pub record CreatePayload : Type 0 where
  pub names : NameFields
  pub phone : String
  pub phones : Option (List String)
  pub notes : Option String

pub record UpdatePayload : Type 0 where
  pub names : NameFields
  pub phone : Option String
  pub phones : Option (List String)
  pub notes : Option String

abbrev pub phone_taken : String → Error
phone_taken phone =
    conflict (said_of "Customer with phone '${phone}' already exists in this restaurant" phone)

-- The unique index on (restaurant_id, phone) of customers.
unfoldable pub insert_customer : Customer → On People (Unit {0})
insert_customer c s =
    if 0 == count (has_phone c.restaurant_id c.phone) s.customers
    then (ok tt, record s { customers = s.customers ++ (c ∷ []) })
    else (err unique_violation, s)

abbrev pub is_phone : ℕ → String → CustomerPhone → Bool
is_phone restaurant phone p = p.restaurant_id == restaurant && str_eq p.phone phone

abbrev pub new_phone_row : ℕ → ℕ → Bool → String → CustomerPhone
new_phone_row restaurant id default p = record {
  restaurant_id = restaurant;
  customer_id = id;
  phone = p;
  is_default = default;
  deleted_at = none;
}

-- The unique index on (restaurant_id, phone) of customer_phones; the first number is the default.
unfoldable pub insert_phones : ℕ → ℕ → Bool → List String → On People (Unit {0})
insert_phones restaurant id default [] s = (ok tt, s)
insert_phones restaurant id default (p ∷ ps) s =
    let rest =
      insert_phones restaurant id false ps
        (record s { phones = s.phones ++ (new_phone_row restaurant id default p ∷ []) }) in
    if 0 == count (is_phone restaurant p) s.phones then rest else (err unique_violation, s)

-- `prisma.customer.create`, a statement that writes the customer and the numbers or nothing.
unfoldable pub create_row : Customer → List String → On People Customer
unfolding insert_customer insert_phones
create_row c phones =
    transaction (do insert_customer c; insert_phones c.restaurant_id c.id true phones; pure c)

abbrev or_empty : Option (List String) → List String
or_empty none = []
or_empty (some ps) = ps

-- `deduped`
unfoldable pub all_phones : CreatePayload → List String
unfolding dedupe trim_phones
all_phones payload = dedupe (trim_phones (trim payload.phone ∷ or_empty payload.phones))

-- The row that the repository's createCustomer writes.
unfoldable pub new_customer : TenantContext → CreatePayload → ℕ → Customer
unfolding normalize_name
new_customer ctx payload id =
    let names = normalize_name payload.names in
    record {
      id = id;
      restaurant_id = ctx.restaurant_id;
      first_name = some names.first_name;
      last_name = filled names.last_name;
      name = names.name;
      phone = trim payload.phone;
      notes = filled payload.notes;
      deleted_at = none;
    }

unfoldable pub create_customer : PeopleEnv → TenantContext → CreatePayload → On People Customer
unfolding find_customer_by_phone all_phones new_customer create_row
create_customer env ctx payload = do
  existing ← gets (find_customer_by_phone ctx (trim payload.phone))
  throw_if (is_some existing) (phone_taken (trim payload.phone))
  id ← gets env.next_customer
  on_violation (create_row (new_customer ctx payload id) (trim_phones (all_phones payload)))
      (throw (phone_taken (trim payload.phone)))

-- `payload.x !== undefined ? { x: payload.x } : {}`
abbrev pub given : {A : Type 0} → Option A → A → A
given none a = a
given (some b) a = b

abbrev pub given_text : Option String → Option String → Option String
given_text none a = a
given_text (some b) a = some b

-- `{ ...customer, ...payload }`, as far as normalizeName reads it.
unfoldable pub merged_names : Customer → NameFields → NameFields
merged_names c p = record {
  first_name = given_text p.first_name c.first_name;
  last_name = given_text p.last_name c.last_name;
  name = some (given p.name c.name);
}

-- The `data` of the update.
unfoldable pub write_customer : Names → Option String → Option String → Customer → Customer
write_customer names phone notes c = record c {
  first_name = some names.first_name;
  last_name = names.last_name;
  name = names.name;
  phone = given phone c.phone;
  notes = given_text notes c.notes;
}

-- `tx.customer.updateMany`: the unique index refuses a number of another row.
unfoldable pub update_row :
    TenantContext → ℕ → Names → Option String → Option String → On People (Unit {0})
unfolding write_customer
update_row ctx id names phone notes s =
    let written = record s {
      customers =
          update_many (is_customer ctx.restaurant_id id) (write_customer names phone notes)
            s.customers;
    } in
    elim phone [
      | none ↦ (ok tt, written)
      | some p ↦
          if 0 == count (λ c. has_phone ctx.restaurant_id p c && not (c.id == id)) s.customers
          then (ok tt, written)
          else (err unique_violation, s)
    ]

unfoldable pub replace_phones : TenantContext → ℕ → Option (List String) → On People (Unit {0})
unfolding delete_many insert_phones
replace_phones ctx id none = pure tt
replace_phones ctx id (some ps) = do
  modify (λ s. record s {
    phones =
        delete_many (λ p. p.customer_id == id && p.restaurant_id == ctx.restaurant_id) s.phones;
  })
  insert_phones ctx.restaurant_id id true (trim_phones ps)

-- updateCustomer of the repository.
unfoldable pub save_customer :
    TenantContext
    → ℕ
    → Names
    → Option String
    → Option (List String)
    → Option String
    → On People (Option Customer)
unfolding find_customer_by_id update_row replace_phones
save_customer ctx id names phone phones notes s = elim (find_customer_by_id ctx id s) [
  | none ↦ (ok none, s)
  | some c ↦
      ((transaction (do update_row ctx id names phone notes; replace_phones ctx id phones))
          >> gets (find_customer_by_id ctx id))
        s
]

-- `payload.phone ? payload.phone.trim() : undefined`
abbrev pub new_phone : Option String → Option String
new_phone none = none
new_phone (some String.[]) = none
new_phone (some (String.◌∷◌ c s)) = some (trim (String.◌∷◌ c s))

abbrev dedupe_given : Option (List String) → Option (List String)
dedupe_given none = none
dedupe_given (some ps) = some (dedupe (trim_phones ps))

-- `phoneConflict && phoneConflict.id !== customerId`
abbrev pub is_other : ℕ → Option Customer → Bool
is_other id none = false
is_other id (some c) = not (c.id == id)

unfoldable pub update_customer : TenantContext → ℕ → UpdatePayload → On People Customer
unfolding get_customer_by_id find_customer_by_phone merged_names normalize_name save_customer
update_customer ctx id payload = do
  customer ← get_customer_by_id ctx id
  let phone = given (new_phone payload.phone) customer.phone
  other ← gets (find_customer_by_phone ctx phone)
  throw_if (not (str_eq phone customer.phone) && is_other id other) (phone_taken phone)
  updated ←
      on_violation
        (save_customer ctx id (normalize_name (merged_names customer payload.names))
          (new_phone payload.phone) (dedupe_given payload.phones) payload.notes)
        (throw (phone_taken phone))
  or_throw updated (not_found (said "Customer not found or access denied"))

-- softDeleteCustomer behind the service's check; `existing` is what it read.
unfoldable pub delete_customer : PeopleEnv → TenantContext → ℕ → On People Customer
unfolding get_customer_by_id
delete_customer env ctx id = do
  get_customer_by_id ctx id
  existing ← gets (find_customer_by_id ctx id)
  when (is_some existing) (
      modify (λ s. record s {
        customers =
            update_many (is_customer ctx.restaurant_id id)
              (λ c. record c { deleted_at = some env.now }) s.customers;
      }))
  or_throw existing (not_found (said "Customer not found or access denied"))

abbrev rest_of : List String → Option String
rest_of [] = none
rest_of (w ∷ []) = none
rest_of (w ∷ v ∷ ws) = some (join_spaces (v ∷ ws))

abbrev first_of : List String → Option String
first_of [] = none
first_of (w ∷ ws) = some w

unfoldable pub caller_row : TenantContext → String → Option String → ℕ → Customer
unfolding split_spaces join_spaces
caller_row ctx phone name id =
    let full = trim (or_text name (str_append "Customer " phone)) in
    record {
      id = id;
      restaurant_id = ctx.restaurant_id;
      first_name = first_of (split_spaces full);
      last_name = rest_of (split_spaces full);
      name = full;
      phone = phone;
      notes = none;
      deleted_at = none;
    }

-- The transaction of findOrCreateCustomerByPhone. Whether a transaction answers a read after a statement
-- in it has failed is the database's to say, as `after_failure`: the read as given, or an error.
unfoldable pub reach_or_create :
    PeopleEnv
    → (On People (Option Customer) → On People (Option Customer))
    → TenantContext
    → String
    → Option String
    → On People (Option Customer)
unfolding find_customer_by_phone caller_row create_row
reach_or_create env after_failure ctx phone name s = elim (find_customer_by_phone ctx phone s) [
  | some c ↦ (ok (some c), s)
  | none ↦
      on_violation
        (create_row (caller_row ctx phone name (env.next_customer s)) (phone ∷ []) >>= λ c.
          pure (some c))
        (after_failure (gets (find_customer_by_phone ctx phone))) s
]

unfoldable pub find_or_create_customer_by_phone :
    PeopleEnv
    → (On People (Option Customer) → On People (Option Customer))
    → TenantContext
    → String
    → Option String
    → On People (Option Customer)
unfolding reach_or_create
find_or_create_customer_by_phone env after_failure ctx phone name s =
    if str_eq phone ""
    then (ok none, s)
    else transaction (reach_or_create env after_failure ctx phone name) s
