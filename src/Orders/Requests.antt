-- ===== src/Orders/Requests.antt =====
-- How the requests of order.service.js on an order run: which of them reach their transaction, and
-- on what. `m` is what other requests do between the read and the write.
use Prim.Native.String.{String}
use restaurant_management_ba.Base.{ℕ, ◌≡◌, ◌⊎◌, true, false, Option, none, some, arith}
use restaurant_management_ba.Model.{
  Db, Order, OrderStatus, PaymentMethod, TenantContext, is_terminal, is_cancelled, is_paid,
}
use restaurant_management_ba.Exec.{ok, err, not_found, branch_missing, order_missing}
use restaurant_management_ba.Env.{Env}
use restaurant_management_ba.Orders.Find.{find_order_by_id, get_order_by_id}
use restaurant_management_ba.Orders.Transitions.{validate_transition}
use restaurant_management_ba.Orders.Changes.{
  update_status_transaction, payment_transaction, refund_transaction,
}
use restaurant_management_ba.Orders.Service.{
  update_order_status, cancel_order, process_order_payment, process_order_refund,
}

pub get_order_keeps : (ctx : TenantContext) (b id : ℕ) (s : Db) → (get_order_by_id ctx b id s).1 ≡ s
unfolding get_order_by_id
get_order_keeps ctx b id s = ground arith

-- An order that is there is returned, unless the branch is refused.
pub get_order_some :
    (ctx : TenantContext) (b id : ℕ) (s : Db) (o : Order)
    → find_order_by_id ctx b id s ≡ some o
    → (get_order_by_id ctx b id s ≡ (err (not_found branch_missing), s))
      ⊎ (get_order_by_id ctx b id s ≡ (ok o, s))
unfolding get_order_by_id find_order_by_id
get_order_some ctx b id s o h = ground arith

pub get_order_none :
    (ctx : TenantContext) (b id : ℕ) (s : Db)
    → find_order_by_id ctx b id s ≡ none
    → (get_order_by_id ctx b id s ≡ (err (not_found branch_missing), s))
      ⊎ (get_order_by_id ctx b id s ≡ (err (not_found order_missing), s))
unfolding get_order_by_id find_order_by_id
get_order_none ctx b id s h = ground arith

module _ (m : Db → Db) (ctx : TenantContext) (b id : ℕ) (expected : ℕ) (reason : Option String)
    (s : Db) where
  -- A request for an order that is not there changes nothing.
  pub update_order_status-none :
      (new : OrderStatus)
      → find_order_by_id ctx b id s ≡ none
      → (update_order_status m ctx b id new expected reason s).1 ≡ s
  unfolding update_order_status
  update_order_status-none new h = ground (arith, get_order_none ctx b id s h)

  -- Otherwise it changes nothing, or it passed its checks on the order that it read, and its
  -- transaction ran on what the other requests had left.
  pub update_order_status-some :
      (new : OrderStatus) (o : Order)
      → find_order_by_id ctx b id s ≡ some o
      → let after = (update_order_status m ctx b id new expected reason s).1 in
        (after ≡ s)
        ⊎ ((is_cancelled new ≡ false)
            × (validate_transition o.status new o.type ≡ ok tt)
            × (after ≡ (update_status_transaction ctx b id expected o.status new reason (m s)).1))
  unfolding update_order_status
  update_order_status-some new o h = ground (
    arith,
    get_order_some ctx b id s o h,
    get_order_keeps ctx b id
        (update_status_transaction ctx b id expected o.status new reason (m s)).1,
  )

  pub cancel_order-none :
      find_order_by_id ctx b id s ≡ none → (cancel_order m ctx b id expected reason s).1 ≡ s
  unfolding cancel_order
  cancel_order-none h = ground (arith, get_order_none ctx b id s h)

  pub cancel_order-some :
      (o : Order)
      → find_order_by_id ctx b id s ≡ some o
      → let after = (cancel_order m ctx b id expected reason s).1 in
        (after ≡ s)
        ⊎ ((is_terminal o.status ≡ false)
            × (after
                ≡ (update_status_transaction ctx b id expected o.status OrderStatus.cancelled reason
                    (m s)).1))
  unfolding cancel_order
  cancel_order-some o h = ground (
    arith,
    get_order_some ctx b id s o h,
    get_order_keeps ctx b id
        (update_status_transaction ctx b id expected o.status OrderStatus.cancelled reason (m s)).1,
  )

module _ (m : Db → Db) (env : Env) (ctx : TenantContext) (b id expected : ℕ) (s : Db) where
  pub process_order_payment-none :
      (amount : ℕ) (method : PaymentMethod)
      → find_order_by_id ctx b id s ≡ none
      → (process_order_payment m env ctx b id expected amount method s).1 ≡ s
  unfolding process_order_payment
  process_order_payment-none amount method h = ground (arith, get_order_none ctx b id s h)

  pub process_order_payment-some :
      (amount : ℕ) (method : PaymentMethod) (o : Order)
      → find_order_by_id ctx b id s ≡ some o
      → let after = (process_order_payment m env ctx b id expected amount method s).1 in
        (after ≡ s)
        ⊎ ((is_cancelled o.status ≡ false)
            × (amount ≡ o.total)
            × (after ≡ (payment_transaction env ctx b id expected method (m s)).1))
  unfolding process_order_payment
  process_order_payment-some amount method o h = ground (
    arith,
    get_order_some ctx b id s o h,
    get_order_keeps ctx b id (payment_transaction env ctx b id expected method (m s)).1,
  )

  pub process_order_refund-none :
      (reason : String)
      → find_order_by_id ctx b id s ≡ none
      → (process_order_refund m env ctx b id expected reason s).1 ≡ s
  unfolding process_order_refund
  process_order_refund-none reason h = ground (arith, get_order_none ctx b id s h)

  pub process_order_refund-some :
      (reason : String) (o : Order)
      → find_order_by_id ctx b id s ≡ some o
      → let after = (process_order_refund m env ctx b id expected reason s).1 in
        (after ≡ s)
        ⊎ ((is_paid o.payment_status ≡ true)
            × (after ≡ (refund_transaction env ctx b id expected reason (m s)).1))
  unfolding process_order_refund
  process_order_refund-some reason o h = ground (
    arith,
    get_order_some ctx b id s o h,
    get_order_keeps ctx b id (refund_transaction env ctx b id expected reason (m s)).1,
  )
