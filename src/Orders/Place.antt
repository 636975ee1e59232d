-- ===== src/Orders/Place.antt =====
-- createOrder and createPosOrder of src/modules/orders/order.service.js: the checks of the caller, the
-- customer and the table, the pricing, and the creation. The event is left out.
use Prim.Native.String.{String}
use restaurant_management_ba.Base.{
  ℕ, Bool, true, false, not, ◌&&◌, ◌||◌, Option, none, some, List, ◌==◌, is_some, filled,
  is_missing, if◌then◌else◌,
}
use restaurant_management_ba.Model.{
  Db, Order, OrderSource, OrderType, OrderStatus, PaymentStatus, PaymentMethod, ItemSnapshot,
  IdempotencyKey, TenantContext,
}
use restaurant_management_ba.Store.{find_first}
use restaurant_management_ba.Exec.{
  On, Result, ok, err, Error, pure, throw, gets, check, or_throw, throw_if, ◌>>=◌, ◌>>◌,
  authorization, business_rule, not_found, type_error, said,
}
use restaurant_management_ba.Env.{Env}
use restaurant_management_ba.Orders.Find.{require_branch, find_idempotency_key}
use restaurant_management_ba.Orders.Create.{
  OrderPayload, or_else, is_table, create_order_transaction,
}
use restaurant_management_ba.Orders.Pricing.{ProductModifier, ItemInput, all_modifiers, price_items}
use restaurant_management_ba.Customers.Rows.{Customer, People, PeopleEnv, is_customer}
use restaurant_management_ba.Customers.Change.{find_or_create_customer_by_phone}
use restaurant_management_ba.Staff.Rows.{Staff, StaffEnv, Granted}
use restaurant_management_ba.Staff.Access.{get_employee_permissions, is_owner, includes}

-- All the tables that a creation reads or writes.
pub record World : Type 0 where
  pub db : Db
  pub people : People
  pub staff : Staff
  pub modifiers : List ProductModifier

-- What a creation takes from outside: the three environments, whether a transaction of customers answers
-- after a failure, and what other requests write between the attempts.
pub record Outside : Type 0 where
  pub env : Env
  pub people_env : PeopleEnv
  pub staff_env : StaffEnv
  pub after_failure : On People (Option Customer) → On People (Option Customer)
  pub between : ℕ → Db → Db

-- A call of one part, in the whole.
abbrev pub on_db : {A : Type 0} → On Db A → On World A
on_db m w = let (r, s) = m w.db in (r, record w { db = s })

abbrev pub on_people : {A : Type 0} → On People A → On World A
on_people m w = let (r, s) = m w.people in (r, record w { people = s })

abbrev pub on_staff : {A : Type 0} → On Staff A → On World A
on_staff m w = let (r, s) = m w.staff in (r, record w { staff = s })

-- The body of the request; the discount is in parts of a cent, as in the environment, and an amount of 0 is
-- no discount.
pub record CreateOrder : Type 0 where
  pub source : Option OrderSource
  pub type : Option OrderType
  pub status : Option OrderStatus
  pub payment_status : Option PaymentStatus
  pub payment_method : Option PaymentMethod
  pub table_id : Option ℕ
  pub customer_id : Option ℕ
  pub customer_phone : Option String
  pub customer_name : Option String
  pub coupon_id : Option ℕ
  pub discount_amount : ℕ
  pub notes : Option String
  pub address : Option String
  pub items : List ItemInput

-- SOURCE_PERMISSION; orders by QR code need none.
abbrev pub source_permission : OrderSource → Option String
source_permission OrderSource.cashier = some "orders.source_cashier"
source_permission OrderSource.phone = some "orders.source_phone"
source_permission OrderSource.whatsapp = some "orders.source_whatsapp"
source_permission OrderSource.website = some "orders.source_website"
source_permission OrderSource.qr = none

abbrev pub may : Granted → String → Bool
may g key = is_owner g || includes g.permissions key

-- The caller, if an employee, has the permission.
unfoldable pub require_permission :
    Outside → TenantContext → ℕ → String → Error → On World (Unit {0})
unfolding get_employee_permissions
require_permission out ctx employee key e = do
  g ← on_staff (get_employee_permissions out.staff_env employee ctx.restaurant_id)
  throw_if (not (may g key)) e

abbrev pub source_refused : Error
source_refused = authorization (said "You don't have permission to create ${payload.source} orders")

unfoldable pub check_source : Outside → TenantContext → CreateOrder → On World (Unit {0})
unfolding require_permission
check_source out ctx payload =
    elim (source_permission (or_else payload.source OrderSource.cashier)) [
      | none ↦ pure tt
      | some key ↦ elim ctx.employee_id [
        | none ↦ pure tt
        | some employee ↦ require_permission out ctx employee key source_refused
      ]
    ]

abbrev pub id_of : Option Customer → Option ℕ
id_of none = none
id_of (some c) = some c.id

-- `payload.customerId`, after the customer was looked up.
unfoldable pub settle_customer : Outside → TenantContext → CreateOrder → On World (Option ℕ)
unfolding find_or_create_customer_by_phone
settle_customer out ctx payload w = elim payload.customer_id [
  | some id ↦ elim (find_first (is_customer ctx.restaurant_id id) w.people.customers) [
    | none ↦ (err (not_found (said "Customer not found or access denied")), w)
    | some c ↦ (ok (some id), w)
  ]
  | none ↦ elim (filled payload.customer_phone) [
    | none ↦ (ok none, w)
    | some phone ↦
        (on_people (
              find_or_create_customer_by_phone out.people_env out.after_failure ctx phone
                payload.customer_name)
            >>= λ c. pure (id_of c))
          w
  ]
]

unfoldable pub check_order_table : TenantContext → ℕ → Option ℕ → On World (Unit {0})
check_order_table ctx branch table w = elim table [
  | none ↦ (ok tt, w)
  | some t ↦
      if is_some (find_first (is_table ctx.restaurant_id branch t) w.db.tables)
      then (ok tt, w)
      else (err (not_found (said "Table not found in target branch")), w)
]

-- The subtotal and the snapshots, from the rows of products and modifiers.
unfoldable pub price_order : ℕ → List ItemInput → World → Result (ℕ × List ItemSnapshot)
unfolding all_modifiers price_items
price_order restaurant items w =
    price_items restaurant w.db.products (all_modifiers restaurant items w.modifiers) items

-- `discountAmount`, in parts of a cent: none besides a coupon.
abbrev pub manual_discount : CreateOrder → ℕ
manual_discount payload = if is_some payload.coupon_id then 0 else payload.discount_amount

abbrev pub discount_refused : Error
discount_refused = authorization (said "You don't have permission to apply manual discounts")

unfoldable pub check_discount : Outside → TenantContext → ℕ → On World (Unit {0})
unfolding require_permission
check_discount out ctx discount = if discount == 0 then pure tt else elim ctx.employee_id [
  | none ↦ throw (authorization (said "Manual discounts require an authenticated employee"))
  | some employee ↦ require_permission out ctx employee "orders.discount" discount_refused
]

-- `orderPayload`
unfoldable pub order_payload : CreateOrder → Option ℕ → ℕ → OrderPayload
order_payload payload customer subtotal = record {
  source = some (or_else payload.source OrderSource.cashier);
  type = some (or_else payload.type OrderType.dine_in);
  status = some (or_else payload.status OrderStatus.pending);
  payment_status = some (or_else payload.payment_status PaymentStatus.pending);
  payment_method = payload.payment_method;
  table_id = payload.table_id;
  customer_id = customer;
  coupon_id = payload.coupon_id;
  subtotal = subtotal;
  discount_amount = manual_discount payload;
  notes = filled payload.notes;
  address = filled payload.address;
}

-- What createOrder returns: the response of an earlier request with the key, or the new order.
pub data Placed : Type 0 where
  cached : IdempotencyKey → Placed
  created : Order → Placed

-- What follows the look-up of the idempotency key.
unfoldable pub place_order :
    Outside → TenantContext → ℕ → CreateOrder → Option String → On World Placed
unfolding require_branch settle_customer check_order_table price_order check_discount order_payload
    create_order_transaction
place_order out ctx branch payload key = do
  on_db (require_branch ctx branch)
  customer ← settle_customer out ctx payload
  check_order_table ctx branch payload.table_id
  priced ← gets (price_order ctx.restaurant_id payload.items)
  (subtotal, snapshots) ← check priced
  check_discount out ctx (manual_discount payload)
  order ← on_db (
      create_order_transaction out.env out.between ctx branch
        (order_payload payload customer subtotal) snapshots key)
  o ← or_throw order type_error
  pure (created o)

abbrev pub look_up : Outside → ℕ → Option String → World → Option IdempotencyKey
look_up out restaurant none w = none
look_up out restaurant (some key) w = find_idempotency_key out.env restaurant key w.db

unfoldable pub create_order :
    Outside → TenantContext → ℕ → CreateOrder → Option String → On World Placed
unfolding check_source find_idempotency_key place_order
create_order out ctx branch payload key = do
  check_source out ctx payload
  hit ← gets (look_up out ctx.restaurant_id (filled key))
  elim hit as (λ _. On World Placed) [
    | some k ↦ pure (cached k)
    | none ↦ place_order out ctx branch payload (filled key)
  ]

abbrev pub is_delivery : OrderType → Bool
is_delivery OrderType.delivery = true
is_delivery _ = false

abbrev pub is_dine_in : OrderType → Bool
is_dine_in OrderType.dine_in = true
is_dine_in _ = false

unfoldable pub create_pos_order :
    Outside → TenantContext → ℕ → CreateOrder → Option String → On World Placed
unfolding create_order
create_pos_order out ctx branch payload key = do
  let type = or_else payload.type OrderType.dine_in
  throw_if (is_dine_in type && not (is_some payload.table_id))
      (business_rule (said "tableId is required for DINE_IN POS orders"))
  throw_if (is_delivery type && is_missing payload.customer_name)
      (business_rule (said "Customer name is required for DELIVERY orders"))
  throw_if (is_delivery type && is_missing payload.address)
      (business_rule (said "Delivery address is required for DELIVERY orders"))
  throw_if
      (not (is_dine_in type)
        && not (is_some payload.customer_id)
        && not (is_some (filled payload.customer_phone)))
      (business_rule (
        said
          "Customer profile or customer phone number is required for DELIVERY and PICKUP orders"))
  create_order out ctx branch
      (record payload {
        source = some (or_else payload.source OrderSource.cashier);
        type = some type;
      })
      key
