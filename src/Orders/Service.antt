-- ===== src/Orders/Service.antt =====
-- updateOrderStatus, cancelOrder, processOrderPayment and processOrderRefund of
-- src/modules/orders/order.service.js. An operation reads the order, checks it, and then writes in a
-- transaction; what other requests do between the read and the write is the argument `meanwhile`.
use Prim.Native.String.{String}
use restaurant_management_ba.Base.{ℕ, not, Option, ◌==◌, is_missing}
use restaurant_management_ba.Model.{
  Db, Order, OrderStatus, PaymentMethod, TenantContext, is_terminal, is_cancelled, is_paid,
  is_refunded,
}
use restaurant_management_ba.Exec.{
  Action, throw_if, check, modify, ◌>>=◌, ◌>>◌, business_rule, use_cancel_endpoint, reason_required,
  terminal_state, order_cancelled, already_paid, already_refunded, wrong_amount, not_paid,
}
use restaurant_management_ba.Env.{Env}
use restaurant_management_ba.Orders.Transitions.{validate_transition}
use restaurant_management_ba.Orders.Find.{get_order_by_id}
use restaurant_management_ba.Orders.Changes.{
  update_status_transaction, payment_transaction, refund_transaction,
}

module _ (meanwhile : Db → Db) where
  unfoldable pub update_order_status :
      TenantContext → ℕ → ℕ → OrderStatus → ℕ → Option String → Action Order
  update_order_status ctx branch id new expected reason = do
    throw_if (is_cancelled new) (business_rule use_cancel_endpoint)
    order ← get_order_by_id ctx branch id
    check (validate_transition order.status new order.type)
    modify meanwhile
    update_status_transaction ctx branch id expected order.status new reason
    get_order_by_id ctx branch id

  unfoldable pub cancel_order : TenantContext → ℕ → ℕ → ℕ → Option String → Action Order
  cancel_order ctx branch id expected reason = do
    throw_if (is_missing reason) (business_rule reason_required)
    order ← get_order_by_id ctx branch id
    throw_if (is_terminal order.status) (business_rule (terminal_state order.status))
    modify meanwhile
    update_status_transaction ctx branch id expected order.status OrderStatus.cancelled reason
    get_order_by_id ctx branch id

  -- `amount` is in cents.
  unfoldable pub process_order_payment :
      Env → TenantContext → ℕ → ℕ → ℕ → ℕ → PaymentMethod → Action Order
  process_order_payment env ctx branch id expected amount method = do
    order ← get_order_by_id ctx branch id
    throw_if (is_cancelled order.status) (business_rule order_cancelled)
    throw_if (is_paid order.payment_status) (business_rule already_paid)
    throw_if (is_refunded order.payment_status) (business_rule already_refunded)
    throw_if (not (amount == order.total)) (business_rule wrong_amount)
    modify meanwhile
    payment_transaction env ctx branch id expected method
    get_order_by_id ctx branch id

  unfoldable pub process_order_refund : Env → TenantContext → ℕ → ℕ → ℕ → String → Action Order
  process_order_refund env ctx branch id expected reason = do
    order ← get_order_by_id ctx branch id
    throw_if (not (is_paid order.payment_status)) (business_rule not_paid)
    modify meanwhile
    refund_transaction env ctx branch id expected reason
    get_order_by_id ctx branch id
