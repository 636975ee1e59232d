-- ===== src/Orders/Create.antt =====
-- createOrderInClient and createOrderTransaction of src/modules/orders/order.repository.js.
use Prim.Native.String.{String}
use text.Mathlib.Text.{◌==◌ as str_eq}
use restaurant_management_ba.Base.{
  ℕ, zero, suc, ◌*◌, ◌-◌, Bool, false, not, ◌&&◌, Option, none, some, List, [], ◌∷◌, ◌++◌, map,
  ◌==◌, is_some, filled, if◌then◌else◌,
}
use restaurant_management_ba.Model.{
  Db, Order, OrderItem, ItemSnapshot, OrderSource, OrderType, OrderStatus, PaymentStatus,
  PaymentMethod, TableStatus, RestaurantTable, BranchSettings, IdempotencyKey, TenantContext,
  HistoryEntry, order_created, is_qr,
}
use restaurant_management_ba.Store.{find_first, update_many, count}
use restaurant_management_ba.Exec.{
  Action, ok, err, is_unique_violation, unique_violation, pure, gets, modify, transaction, ◌>>=◌,
  ◌>>◌, business_rule, table_busy,
}
use restaurant_management_ba.Env.{Env}
use restaurant_management_ba.Coupons.Rules.{CouponItem}
use restaurant_management_ba.Coupons.Apply.{apply_coupon}
use restaurant_management_ba.Orders.Find.{holds_table, find_next_order_number, is_key}

-- The argument `orderPayload`; what may be undefined or null is optional. The subtotal is in cents, and
-- `discountAmount`, which may be any number that is not negative, in parts of a cent.
pub record OrderPayload : Type 0 where
  pub source : Option OrderSource
  pub type : Option OrderType
  pub status : Option OrderStatus
  pub payment_status : Option PaymentStatus
  pub payment_method : Option PaymentMethod
  pub table_id : Option ℕ
  pub customer_id : Option ℕ
  pub coupon_id : Option ℕ
  pub subtotal : ℕ
  pub discount_amount : ℕ
  pub notes : Option String
  pub address : Option String

-- `value || default`
abbrev pub or_else : {A : Type 0} → Option A → A → A
or_else none d = d
or_else (some a) d = a

abbrev pub is_from_qr : Option OrderSource → Bool
is_from_qr none = false
is_from_qr (some s) = is_qr s

abbrev pub item_of : ItemSnapshot → CouponItem
item_of i = record { product_id = i.product_id; subtotal = i.subtotal }

-- `itemsPayload.map((item) => ({ restaurantId, orderId: order.id, ... }))`
abbrev saved_item : ItemSnapshot → ItemSnapshot
saved_item i = record i { notes = filled i.notes; round = if i.round == 0 then 1 else i.round }

abbrev pub items_of : ℕ → ℕ → List ItemSnapshot → List OrderItem
items_of restaurant id [] = []
items_of restaurant id (i ∷ is) =
    record { restaurant_id = restaurant; order_id = id; item = saved_item i }
    ∷ items_of restaurant id is

-- `where: { id, branchId, restaurantId, deletedAt: null }`
abbrev pub is_table : ℕ → ℕ → ℕ → RestaurantTable → Bool
is_table restaurant branch id t =
    t.id == id
    && t.branch_id == branch
    && t.restaurant_id == restaurant
    && not (is_some t.deleted_at)

abbrev pub set_status : TableStatus → RestaurantTable → RestaurantTable
set_status st t = record t { status = st }

-- `tx.restaurantTable.updateMany`, if the order has a table.
unfoldable pub set_table : ℕ → ℕ → Option ℕ → TableStatus → Action (Unit {0})
set_table restaurant branch none st = pure tt
set_table restaurant branch (some t) st =
    modify (λ s. record s {
      tables = update_many (is_table restaurant branch t) (set_status st) s.tables;
    })

-- The check before a staff order is put on a table.
unfoldable pub check_table : ℕ → ℕ → OrderPayload → Action (Unit {0})
check_table restaurant branch payload s = elim payload.table_id [
  | none ↦ (ok tt, s)
  | some t ↦
      if is_from_qr payload.source
      then (ok tt, s)
      else elim (find_first (holds_table restaurant branch t) s.orders) [
        | none ↦ (ok tt, s)
        | some o ↦ (err (business_rule (table_busy o.order_number)), s)
      ]
]

-- `discountAmount`, in parts of a cent: the coupon's, if there is one.
unfoldable pub settle_discount : Env → TenantContext → OrderPayload → List ItemSnapshot → Action ℕ
unfolding apply_coupon
settle_discount env ctx payload items = elim payload.coupon_id [
  | none ↦ pure payload.discount_amount
  | some c ↦
      apply_coupon env ctx c payload.subtotal (map item_of items) >>= λ d. pure (d * env.parts)
]

-- The row that `tx.order.create` inserts. Subtraction stops at 0, as `Math.max(0, ...)` does. The discount
-- and the total are each rounded by their column.
unfoldable pub new_order : Env → TenantContext → ℕ → OrderPayload → ℕ → String → ℕ → ℕ → Order
new_order env ctx branch payload id date number discount = record {
  id = id;
  order_number = number;
  order_date = date;
  restaurant_id = ctx.restaurant_id;
  branch_id = branch;
  source = or_else payload.source OrderSource.cashier;
  type = or_else payload.type OrderType.dine_in;
  status = or_else payload.status OrderStatus.pending;
  payment_status = or_else payload.payment_status PaymentStatus.pending;
  payment_method = payload.payment_method;
  customer_id = payload.customer_id;
  table_id = payload.table_id;
  coupon_id = payload.coupon_id;
  subtotal = payload.subtotal;
  discount_amount = env.to_column discount;
  total = env.to_column (payload.subtotal * env.parts - discount);
  notes = filled payload.notes;
  address = filled payload.address;
  cancel_reason = none;
  paid_at = none;
  paid_by = none;
  refunded_at = none;
  refund_reason = none;
  refunded_by = none;
  version = 1;
}

-- The unique index on (branch_id, order_date, order_number).
abbrev pub same_number : Order → Order → Bool
same_number o x =
    x.branch_id == o.branch_id
    && str_eq x.order_date o.order_date
    && x.order_number == o.order_number

unfoldable pub insert_order : Order → Action (Unit {0})
insert_order o s =
    if 0 == count (same_number o) s.orders
    then (ok tt, record s { orders = s.orders ++ (o ∷ []) })
    else (err unique_violation, s)

-- The unique index on (restaurant_id, key).
unfoldable pub insert_key : IdempotencyKey → Action (Unit {0})
insert_key k s =
    if 0 == count (is_key k.restaurant_id k.key) s.keys
    then (ok tt, record s { keys = s.keys ++ (k ∷ []) })
    else (err unique_violation, s)

unfoldable pub save_key : Env → ℕ → Option String → Order → List OrderItem → Action (Unit {0})
unfolding insert_key
save_key env restaurant none o items = pure tt
save_key env restaurant (some key) o items = insert_key (record {
  restaurant_id = restaurant;
  key = key;
  status_code = 201;
  response_order = o;
  response_items = items;
  created_at = env.now;
})

abbrev created_entry : TenantContext → Order → HistoryEntry
created_entry ctx o = record {
  restaurant_id = ctx.restaurant_id;
  order_id = o.id;
  from_status = none;
  to_status = o.status;
  changed_by = ctx.employee_id;
  reason = order_created;
}

-- What follows `tx.order.create`: items, table, history, idempotency key, and the row read again.
unfoldable pub finish_order :
    Env → TenantContext → ℕ → Order → List ItemSnapshot → Option String → Action (Option Order)
unfolding set_table save_key
finish_order env ctx branch o items key = do
  modify (λ s. record s { items = s.items ++ items_of ctx.restaurant_id o.id items })
  set_table ctx.restaurant_id branch o.table_id TableStatus.occupied
  modify (λ s. record s { history = s.history ++ (created_entry ctx o ∷ []) })
  save_key env ctx.restaurant_id key o (items_of ctx.restaurant_id o.id items)
  gets (λ s. find_first (λ x. x.id == o.id && x.restaurant_id == ctx.restaurant_id) s.orders)

-- The argument `{ startNumber, dateKey }`.
pub record Meta : Type 0 where
  pub start_number : ℕ
  pub date_key : String

unfoldable pub create_order_in_client :
    Env
    → TenantContext
    → ℕ
    → OrderPayload
    → List ItemSnapshot
    → Option String
    → Meta
    → Action (Option Order)
unfolding check_table settle_discount new_order insert_order finish_order
create_order_in_client env ctx branch payload items key meta = do
  check_table ctx.restaurant_id branch payload
  number ← gets (find_next_order_number ctx.restaurant_id branch meta.date_key meta.start_number)
  discount ← settle_discount env ctx payload items
  id ← gets env.new_id
  let o = new_order env ctx branch payload id meta.date_key number discount
  insert_order o
  finish_order env ctx branch o items key

-- dateKeyInTimezone
unfoldable pub date_key_in_timezone : Env → Option String → String
date_key_in_timezone env none = env.format_local
date_key_in_timezone env (some zone) = or_else (env.format_in zone) env.format_local

-- `settings?.timezone || undefined`
abbrev zone_of : Option BranchSettings → Option String
zone_of none = none
zone_of (some b) = if str_eq b.timezone "" then none else some b.timezone

-- `settings?.dailyOrderStartNumber || 200`
abbrev start_of : Option BranchSettings → ℕ
start_of none = 200
start_of (some b) = if b.daily_order_start_number == 0 then 200 else b.daily_order_start_number

unfoldable pub order_meta : Env → TenantContext → ℕ → Db → Meta
unfolding date_key_in_timezone
order_meta env ctx branch s =
    let settings =
      find_first (λ b. b.branch_id == branch && b.restaurant_id == ctx.restaurant_id) s.settings in
    record {
      start_number = start_of settings;
      date_key = date_key_in_timezone env (zone_of settings);
    }

-- The loop over attempts, with the attempts left. Other requests may write between two attempts:
-- `between n` is what they did before the attempt with `n` left after it.
unfoldable pub attempts : {A : Type 0} → ℕ → (ℕ → Db → Db) → Action A → Action A
attempts zero between body s = transaction body s
attempts (suc n) between body s =
    let again = attempts n between body (between n s) in
    let (r, s') = transaction body s in
    elim r [ ok a ↦ (ok a, s') | err e ↦ if is_unique_violation e then again else (err e, s') ]

-- Without a transaction of the caller: `MAX_RETRIES` is 3, so two attempts may follow the first.
unfoldable pub create_order_transaction :
    Env
    → (ℕ → Db → Db)
    → TenantContext
    → ℕ
    → OrderPayload
    → List ItemSnapshot
    → Option String
    → Action (Option Order)
create_order_transaction env between ctx branch payload items key = do
  meta ← gets (order_meta env ctx branch)
  attempts 2 between (create_order_in_client env ctx branch payload items key meta)
