-- ===== src/Orders/Growth.antt =====
-- Creating an order and appending items take the table of orders forward too.
use Prim.Native.String.{String}
use restaurant_management_ba.Base.{
  ℕ, ◌≡◌, ◌≢◌, refl, true, Option, none, some, List, [], ◌∷◌, ◌++◌, arith, sum_of,
}
use restaurant_management_ba.Model.{
  Db, Order, OrderItem, ItemSnapshot, TableStatus, TenantContext, is_unpaid, is_active,
}
use restaurant_management_ba.Store.{find_first, update_many, count}
use restaurant_management_ba.Exec.{Result, ok, err}
use restaurant_management_ba.Env.{Env}
use restaurant_management_ba.Orders.Find.{is_order, find_next_order_number}
use restaurant_management_ba.Orders.Append.{append_items, is_unchanged, add_subtotal}
use restaurant_management_ba.Orders.Create.{
  OrderPayload, Meta, create_order_in_client, finish_order, check_table, settle_discount, new_order,
  set_table, save_key, items_of, same_number,
}

pub check_table_keeps : (r b : ℕ) (p : OrderPayload) (s : Db) → (check_table r b p s).1 ≡ s
unfolding check_table
check_table_keeps r b p s = ground arith

set_table_keeps :
    (r b : ℕ) (t : Option ℕ) (st : TableStatus) (s : Db)
    → let after = (set_table r b t st s).1 in
      (after.orders ≡ s.orders) × (after.items ≡ s.items) × (after.coupons ≡ s.coupons)
unfolding set_table
set_table_keeps r b none st s = (refl, refl, refl)
set_table_keeps r b (some t) st s = (refl, refl, refl)

save_key_keeps :
    (env : Env) (r : ℕ) (key : Option String) (o : Order) (items : List OrderItem) (s : Db)
    → let after = (save_key env r key o items s).1 in
      (after.orders ≡ s.orders) × (after.items ≡ s.items) × (after.coupons ≡ s.coupons)
unfolding save_key
save_key_keeps env r none o items s = (refl, refl, refl)
save_key_keeps env r (some key) o items s = ground arith

-- A coupon is all that the discount touches.
pub settle_discount_keeps :
    (env : Env) (ctx : TenantContext) (p : OrderPayload) (items : List ItemSnapshot) (s : Db)
    → let after = (settle_discount env ctx p items s).1 in
      (after.orders ≡ s.orders) × (after.items ≡ s.items)
unfolding settle_discount
settle_discount_keeps env ctx p items s = ground arith

finish_order_keeps :
    (env : Env) (ctx : TenantContext) (b : ℕ) (o : Order) (items : List ItemSnapshot)
    (key : Option String) (s : Db)
    → let after = (finish_order env ctx b o items key s).1 in
      (after.orders ≡ s.orders)
      × (after.items ≡ s.items ++ items_of ctx.restaurant_id o.id items)
      × (after.coupons ≡ s.coupons)
unfolding finish_order
finish_order_keeps env ctx b o items key s = grind (arith, set_table_keeps, save_key_keeps)

abbrev pub value_or_zero : Result ℕ → ℕ
value_or_zero (ok n) = n
value_or_zero (err e) = 0

module _ (env : Env) (ctx : TenantContext) (b : ℕ) (p : OrderPayload) (items : List ItemSnapshot)
    (key : Option String) (meta : Meta) (s : Db) where
  -- The state once the discount is settled_discount, the discount, and the row that is then inserted.
  abbrev pub settled_state : Db
  settled_state = (settle_discount env ctx p items s).1

  abbrev pub settled_discount : ℕ
  settled_discount = value_or_zero (settle_discount env ctx p items s).0

  abbrev pub created_order : Order
  created_order =
      new_order env ctx b p (env.new_id settled_state) meta.date_key
        (find_next_order_number ctx.restaurant_id b meta.date_key meta.start_number s)
        settled_discount

  -- A creation that returns has put one order at the end, and its items too.
  pub create_ok :
      {r : Option Order}
      → (create_order_in_client env ctx b p items key meta s).0 ≡ ok r
      → let after = (create_order_in_client env ctx b p items key meta s).1 in
        (after.orders ≡ s.orders ++ (created_order ∷ []))
        × (after.items ≡ s.items ++ items_of ctx.restaurant_id created_order.id items)
        × (after.coupons ≡ settled_state.coupons)
        × ((check_table ctx.restaurant_id b p s).0 ≡ ok tt)
        × (settle_discount env ctx p items s ≡ (ok settled_discount, settled_state))
        × (count (same_number created_order) s.orders ≡ 0)
  unfolding create_order_in_client
  create_ok h = grind (arith, check_table_keeps, settle_discount_keeps, finish_order_keeps)

module _ (ctx : TenantContext) (b id : ℕ) (items : List ItemSnapshot) (s : Db) where
  pub append_none :
      {r : ℕ}
      → find_first (is_order ctx.restaurant_id b id) s.orders ≡ none
      → (append_items ctx b id items s).0 ≢ ok r
  unfolding append_items
  append_none h e = ground arith

  -- Appending to an order that is there: refused without a change, or the guarded update.
  pub append_ok :
      (o : Order) {r : ℕ}
      → find_first (is_order ctx.restaurant_id b id) s.orders ≡ some o
      → (append_items ctx b id items s).0 ≡ ok r
      → let after = (append_items ctx b id items s).1 in
        (after.orders
          ≡ update_many
              (is_unchanged ctx.restaurant_id b o)
              (add_subtotal o (sum_of (λ i. i.subtotal) items))
              s.orders)
        × (after.items ≡ s.items ++ items_of ctx.restaurant_id o.id items)
        × (after.coupons ≡ s.coupons)
        × (is_unpaid o.payment_status ≡ true)
        × (is_active o.status ≡ true)
        × (r ≡ o.id)
  unfolding append_items
  append_ok o h e = ground arith
