-- ===== src/Orders/Outcome.antt =====
-- What each transaction on an order does to the table of orders, and how it ends.
use Prim.Native.String.{String}
use restaurant_management_ba.Orders.Find.{is_order}
use restaurant_management_ba.Base.{List, [], ◌∷◌, ◌++◌}
use restaurant_management_ba.Model.{Order, Coupon, status_updated, is_cancelled}
use restaurant_management_ba.Base.{ℕ, ◌≡◌, refl, Option, none, some, ◌==◌, arith, if◌then◌else◌}
use restaurant_management_ba.Model.{Db, OrderStatus, PaymentMethod, TenantContext}
use restaurant_management_ba.Store.{find_first, update_many, count, update_many-count_zero}
use restaurant_management_ba.Exec.{Result, ok, err, conflict, modified_elsewhere}
use restaurant_management_ba.Env.{Env}
use restaurant_management_ba.Orders.Changes.{
  is_version, is_payable, set_order_status, set_paid, set_refunded, update_status_transaction,
  payment_transaction, refund_transaction, release_table, settle_ended, return_coupon,
  is_used_coupon, give_back, reason_or,
}

-- How a guarded update ends: by the number of rows that it reaches.
abbrev pub guarded : ℕ → Result (Unit {0})
guarded n = if n == 0 then err (conflict modified_elsewhere) else ok tt

pub release_table_keeps :
    (r b id : ℕ) (t : Option ℕ) (s : Db)
    → ((release_table r b id t s).0 ≡ ok tt) × ((release_table r b id t s).1.orders ≡ s.orders)
unfolding release_table
release_table_keeps r b id none s = (refl, refl)
release_table_keeps r b id (some t) s = ground arith

pub settle_ended_keeps :
    (r b id : ℕ) (new : OrderStatus) (s : Db)
    → ((settle_ended r b id new s).0 ≡ ok tt) × ((settle_ended r b id new s).1.orders ≡ s.orders)
unfolding settle_ended
settle_ended_keeps r b id new s = ground arith

pub status_transaction_orders :
    (ctx : TenantContext) (b id expected : ℕ) (current new : OrderStatus) (reason : Option String)
    (s : Db)
    → (update_status_transaction ctx b id expected current new reason s).1.orders
      ≡ update_many
          (is_version ctx.restaurant_id b id expected)
          (set_order_status new expected reason)
          s.orders
unfolding update_status_transaction
status_transaction_orders ctx b id expected current new reason s = ground (
  arith,
  update_many-count_zero (is_version ctx.restaurant_id b id expected)
      (set_order_status new expected reason) s.orders,
)

pub status_transaction_ends :
    (ctx : TenantContext) (b id expected : ℕ) (current new : OrderStatus) (reason : Option String)
    (s : Db)
    → (update_status_transaction ctx b id expected current new reason s).0
      ≡ guarded (count (is_version ctx.restaurant_id b id expected) s.orders)
unfolding update_status_transaction
status_transaction_ends ctx b id expected current new reason s = ground arith

pub payment_transaction_orders :
    (env : Env) (ctx : TenantContext) (b id expected : ℕ) (method : PaymentMethod) (s : Db)
    → (payment_transaction env ctx b id expected method s).1.orders
      ≡ update_many
          (is_payable ctx.restaurant_id b id expected)
          (set_paid env ctx method expected)
          s.orders
unfolding payment_transaction
payment_transaction_orders env ctx b id expected method s = ground (
  arith,
  update_many-count_zero (is_payable ctx.restaurant_id b id expected)
      (set_paid env ctx method expected) s.orders,
)

pub payment_transaction_ends :
    (env : Env) (ctx : TenantContext) (b id expected : ℕ) (method : PaymentMethod) (s : Db)
    → (payment_transaction env ctx b id expected method s).0
      ≡ guarded (count (is_payable ctx.restaurant_id b id expected) s.orders)
unfolding payment_transaction
payment_transaction_ends env ctx b id expected method s = ground arith

pub refund_transaction_orders :
    (env : Env) (ctx : TenantContext) (b id expected : ℕ) (reason : String) (s : Db)
    → (refund_transaction env ctx b id expected reason s).1.orders
      ≡ update_many
          (is_version ctx.restaurant_id b id expected)
          (set_refunded env ctx reason expected)
          s.orders
unfolding refund_transaction
refund_transaction_orders env ctx b id expected reason s = ground (
  arith,
  update_many-count_zero (is_version ctx.restaurant_id b id expected)
      (set_refunded env ctx reason expected) s.orders,
)

pub refund_transaction_ends :
    (env : Env) (ctx : TenantContext) (b id expected : ℕ) (reason : String) (s : Db)
    → (refund_transaction env ctx b id expected reason s).0
      ≡ guarded (count (is_version ctx.restaurant_id b id expected) s.orders)
unfolding refund_transaction
refund_transaction_ends env ctx b id expected reason s = ground arith

-- The coupon of a cancelled order is given back.
abbrev pub returned : ℕ → Option ℕ → List Coupon → List Coupon
returned r none coupons = coupons
returned r (some k) coupons = update_many (is_used_coupon r k) give_back coupons

release_table_coupons :
    (r b id : ℕ) (t : Option ℕ) (s : Db)
    → ((release_table r b id t s).1.coupons ≡ s.coupons)
      × ((release_table r b id t s).1.items ≡ s.items)
unfolding release_table
release_table_coupons r b id none s = (refl, refl)
release_table_coupons r b id (some t) s = ground arith

return_coupon_coupons :
    (r : ℕ) (k : Option ℕ) (s : Db)
    → return_coupon r k s ≡ (ok tt, record s { coupons = returned r k s.coupons })
unfolding return_coupon
return_coupon_coupons r none s = refl
return_coupon_coupons r (some k) s = refl

settle_ended_coupons :
    (r b id : ℕ) (new : OrderStatus) (s : Db) (o : Order)
    → find_first (is_order r b id) s.orders ≡ some o
    → ((settle_ended r b id new s).1.coupons
        ≡ (if is_cancelled new then returned r o.coupon_id s.coupons else s.coupons))
      × ((settle_ended r b id new s).1.items ≡ s.items)
unfolding settle_ended
settle_ended_coupons r b id new s o h = grind (arith, return_coupon_coupons, release_table_coupons)

module _ (ctx : TenantContext) (b id expected : ℕ) (current new : OrderStatus)
    (reason : Option String) (s : Db) where
  -- A transaction that reaches no row is rolled back.
  pub status_transaction_missed :
      count (is_version ctx.restaurant_id b id expected) s.orders ≡ 0
      → (update_status_transaction ctx b id expected current new reason s).1 ≡ s
  unfolding update_status_transaction
  status_transaction_missed h = ground arith

  pub status_transaction_effects :
      (o : Order)
      → count (is_version ctx.restaurant_id b id expected) s.orders ≡ 1
      → find_first (is_order ctx.restaurant_id b id) (
          update_many
            (is_version ctx.restaurant_id b id expected)
            (set_order_status new expected reason)
            s.orders)
        ≡ some o
      → let after = (update_status_transaction ctx b id expected current new reason s).1 in
        (after.items ≡ s.items)
        × (after.coupons ≡ (
            if is_cancelled new
            then returned ctx.restaurant_id o.coupon_id s.coupons
            else s.coupons))
  unfolding update_status_transaction
  status_transaction_effects o n h = ground (
    arith,
    settle_ended_coupons ctx.restaurant_id b id new
        (record s {
          orders =
              update_many (is_version ctx.restaurant_id b id expected)
                (set_order_status new expected reason) s.orders;
          history =
              s.history
              ++ (record {
                restaurant_id = ctx.restaurant_id;
                order_id = id;
                from_status = some current;
                to_status = new;
                changed_by = ctx.employee_id;
                reason = reason_or reason (status_updated current new);
              }
                  ∷ []);
        })
        o,
  )

pub payment_transaction_keeps :
    (env : Env) (ctx : TenantContext) (b id expected : ℕ) (method : PaymentMethod) (s : Db)
    → let after = (payment_transaction env ctx b id expected method s).1 in
      (after.items ≡ s.items) × (after.coupons ≡ s.coupons)
unfolding payment_transaction
payment_transaction_keeps env ctx b id expected method s = grind (arith, release_table_coupons)

pub refund_transaction_keeps :
    (env : Env) (ctx : TenantContext) (b id expected : ℕ) (reason : String) (s : Db)
    → let after = (refund_transaction env ctx b id expected reason s).1 in
      (after.items ≡ s.items) × (after.coupons ≡ s.coupons)
unfolding refund_transaction
refund_transaction_keeps env ctx b id expected reason s = ground arith
