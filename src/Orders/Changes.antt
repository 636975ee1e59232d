-- ===== src/Orders/Changes.antt =====
-- The three guarded updates of src/modules/orders/order.repository.js, each a transaction with its entry
-- in the history: the status, the payment and the refund of an order.
use Prim.Native.String.{String}
use restaurant_management_ba.Base.{
  ℕ, ◌+◌, ◌-◌, Bool, ◌&&◌, Option, none, some, [], ◌∷◌, ◌++◌, ◌==◌, ltb, is_some, filled,
  if◌then◌else◌,
}
use restaurant_management_ba.Model.{
  Order, OrderStatus, PaymentStatus, PaymentMethod, TableStatus, TenantContext, HistoryEntry,
  Reason, given, status_updated, payment_processed, payment_refunded, Coupon, is_terminal,
  is_cancelled, is_delivered, is_unpaid,
}
use restaurant_management_ba.Store.{find_first, update_many, count}
use restaurant_management_ba.Exec.{
  Action, pure, throw_if, gets, modify, when, transaction, ◌>>=◌, ◌>>◌, conflict,
  modified_elsewhere,
}
use restaurant_management_ba.Env.{Env}
use restaurant_management_ba.Coupons.Apply.{is_coupon}
use restaurant_management_ba.Orders.Find.{is_order, holds_table_besides}
use restaurant_management_ba.Orders.Create.{set_table}

-- `where: { id, branchId, restaurantId, version: expectedVersion }`
abbrev pub is_version : ℕ → ℕ → ℕ → ℕ → Order → Bool
is_version restaurant branch id expected o =
    is_order restaurant branch id o && o.version == expected

-- `updateMany`, and the conflict if no row was reached.
unfoldable pub update_order : (Order → Bool) → (Order → Order) → Action (Unit {0})
update_order p f = do
  updated ← gets (λ s. count p s.orders)
  modify (λ s. record s { orders = update_many p f s.orders })
  throw_if (updated == 0) (conflict modified_elsewhere)

-- A table is released if no other order holds it.
unfoldable pub release_table : ℕ → ℕ → ℕ → Option ℕ → Action (Unit {0})
unfolding set_table
release_table restaurant branch id none = pure tt
release_table restaurant branch id (some t) = do
  active ← gets (λ s. count (holds_table_besides restaurant branch t id) s.orders)
  when (active == 0) (set_table restaurant branch (some t) TableStatus.available)

-- `{ timesUsed: { gt: 0 } }`, `{ decrement: 1 }`
abbrev pub is_used_coupon : ℕ → ℕ → Coupon → Bool
is_used_coupon restaurant id c = is_coupon restaurant id c && ltb 0 c.times_used

abbrev pub give_back : Coupon → Coupon
give_back c = record c { times_used = c.times_used - 1 }

unfoldable pub return_coupon : ℕ → Option ℕ → Action (Unit {0})
return_coupon restaurant none = pure tt
return_coupon restaurant (some c) =
    modify
      (λ s. record s { coupons = update_many (is_used_coupon restaurant c) give_back s.coupons })

abbrev table_of : Option Order → Option ℕ
table_of none = none
table_of (some o) = o.table_id

abbrev coupon_of : Option Order → Option ℕ
coupon_of none = none
coupon_of (some o) = o.coupon_id

abbrev pub reason_or : Option String → Reason → Reason
reason_or reason default = elim (filled reason) [ none ↦ default | some text ↦ given text ]

abbrev pub set_order_status : OrderStatus → ℕ → Option String → Order → Order
set_order_status new expected reason o = record o {
  status = new;
  version = expected + 1;
  cancel_reason = if is_cancelled new && is_some (filled reason) then reason else o.cancel_reason;
}

-- What follows the update of a status that ends the order.
unfoldable pub settle_ended : ℕ → ℕ → ℕ → OrderStatus → Action (Unit {0})
unfolding release_table return_coupon
settle_ended restaurant branch id new = do
  order_data ← gets (λ s. find_first (is_order restaurant branch id) s.orders)
  when (is_cancelled new) (return_coupon restaurant (coupon_of order_data))
  release_table restaurant branch id (table_of order_data)

unfoldable pub update_status_transaction :
    TenantContext → ℕ → ℕ → ℕ → OrderStatus → OrderStatus → Option String → Action (Unit {0})
unfolding update_order settle_ended transaction
update_status_transaction ctx branch id expected current new reason = transaction do
  update_order (is_version ctx.restaurant_id branch id expected)
      (set_order_status new expected reason)
  modify (λ s. record s {
    history =
        s.history
        ++ (record {
          restaurant_id = ctx.restaurant_id;
          order_id = id;
          from_status = some current;
          to_status = new;
          changed_by = ctx.employee_id;
          reason = reason_or reason (status_updated current new);
        }
            ∷ []);
  })
  when (is_terminal new) (settle_ended ctx.restaurant_id branch id new)

abbrev status_of : Option Order → Option OrderStatus
status_of none = none
status_of (some o) = some o.status

abbrev status_or_pending : Option Order → OrderStatus
status_or_pending none = OrderStatus.pending
status_or_pending (some o) = o.status

-- `orderBefore?.tableId && orderBefore.status === "DELIVERED"`
abbrev delivered_table : Option Order → Option ℕ
delivered_table none = none
delivered_table (some o) = if is_delivered o.status then o.table_id else none

abbrev pub is_payable : ℕ → ℕ → ℕ → ℕ → Order → Bool
is_payable restaurant branch id expected o =
    is_version restaurant branch id expected o && is_unpaid o.payment_status

abbrev pub set_paid : Env → TenantContext → PaymentMethod → ℕ → Order → Order
set_paid env ctx method expected o = record o {
  payment_status = PaymentStatus.paid;
  payment_method = some method;
  paid_at = some env.now;
  paid_by = ctx.employee_id;
  version = expected + 1;
}

abbrev kept_entry : TenantContext → ℕ → Option Order → Reason → HistoryEntry
kept_entry ctx id before reason = record {
  restaurant_id = ctx.restaurant_id;
  order_id = id;
  from_status = status_of before;
  to_status = status_or_pending before;
  changed_by = ctx.employee_id;
  reason = reason;
}

unfoldable pub payment_transaction :
    Env → TenantContext → ℕ → ℕ → ℕ → PaymentMethod → Action (Unit {0})
unfolding update_order release_table transaction
payment_transaction env ctx branch id expected method = transaction do
  before ← gets (λ s. find_first (is_order ctx.restaurant_id branch id) s.orders)
  update_order (is_payable ctx.restaurant_id branch id expected) (set_paid env ctx method expected)
  modify (λ s. record s {
    history = s.history ++ (kept_entry ctx id before (payment_processed method) ∷ []);
  })
  release_table ctx.restaurant_id branch id (delivered_table before)

abbrev pub set_refunded : Env → TenantContext → String → ℕ → Order → Order
set_refunded env ctx reason expected o = record o {
  payment_status = PaymentStatus.refunded;
  refunded_at = some env.now;
  refund_reason = some reason;
  refunded_by = ctx.employee_id;
  version = expected + 1;
}

unfoldable pub refund_transaction : Env → TenantContext → ℕ → ℕ → ℕ → String → Action (Unit {0})
unfolding update_order transaction
refund_transaction env ctx branch id expected reason = transaction do
  before ← gets (λ s. find_first (is_order ctx.restaurant_id branch id) s.orders)
  update_order (is_version ctx.restaurant_id branch id expected)
      (set_refunded env ctx reason expected)
  modify (λ s. record s {
    history = s.history ++ (kept_entry ctx id before (payment_refunded reason) ∷ []);
  })
