-- ===== src/Orders/Monotone.antt =====
-- Every request on an order takes the table of orders forward, also when other requests write between
-- its read and its transaction: the version guard makes sure that what was checked is what is changed.
use Prim.Native.String.{String}
use mathlib.Core.Path.{subst}
use restaurant_management_ba.Base.{
  ℕ, ◌≤◌, ◌≡◌, refl, ◌⊎◌, inl, inr, Bool, true, Option, some, List, arith, Option-cases,
}
use restaurant_management_ba.Model.{Db, Order, OrderStatus, PaymentMethod, TenantContext, is_paid}
use restaurant_management_ba.Store.{
  find_first, update_many, IsKeyed, IsKeyed-update_many, Rows, Rows-refl, Rows-trans,
  Rows-update_found, find_first-Rows,
}
use restaurant_management_ba.Env.{Env}
use restaurant_management_ba.Orders.Find.{is_order, find_order_by_id}
use restaurant_management_ba.Orders.Changes.{
  is_version, is_payable, set_order_status, set_paid, set_refunded, update_status_transaction,
  payment_transaction, refund_transaction,
}
use restaurant_management_ba.Orders.Service.{
  update_order_status, cancel_order, process_order_payment, process_order_refund,
}
use restaurant_management_ba.Orders.Outcome.{
  status_transaction_orders, payment_transaction_orders, refund_transaction_orders,
}
use restaurant_management_ba.Orders.Graph.{Change, valid-Change}
use restaurant_management_ba.Orders.Evolution.{
  Evolves, Evolves-refl, Evolves-trans, set_order_status-Evolves, set_paid-Evolves,
  set_refunded-Evolves,
}
use restaurant_management_ba.Orders.Requests.{
  update_order_status-none, update_order_status-some, cancel_order-none, cancel_order-some,
  process_order_payment-none, process_order_payment-some, process_order_refund-none,
  process_order_refund-some,
}

abbrev pub id_of : Order → ℕ
id_of o = o.id

-- The orders of the second table come from those of the first, and identifiers are still unique.
abbrev pub Follows : List Order → List Order → Type 0
Follows xs ys = Rows Evolves xs ys × IsKeyed id_of ys

pub Follows-refl : (xs : List Order) → IsKeyed id_of xs → Follows xs xs
Follows-refl xs k = (Rows-refl Evolves Evolves-refl xs, k)

pub Follows-trans : (xs ys zs : List Order) → Follows xs ys → Follows ys zs → Follows xs zs
Follows-trans xs ys zs h k = (Rows-trans Evolves Evolves-trans xs ys zs h.0 k.0, k.1)

module _ (ctx : TenantContext) (b id : ℕ) where
  is_order-Evolves :
      (x y : Order)
      → Evolves x y
      → is_order ctx.restaurant_id b id y ≡ is_order ctx.restaurant_id b id x
  is_order-Evolves x y e = simp (e.same_id, e.same_branch, e.same_restaurant)

  pub is_order-id : (x : Order) → is_order ctx.restaurant_id b id x ≡ true → x.id ≡ id
  is_order-id x h = ground arith

  -- An update of the one order that is found.
  pub update-Follows :
      (p : Order → Bool) (f : Order → Order) (xs : List Order) (o : Order)
      → IsKeyed id_of xs
      → find_first (is_order ctx.restaurant_id b id) xs ≡ some o
      → ((x : Order) → p x ≡ true → is_order ctx.restaurant_id b id x ≡ true)
      → ((x : Order) → (f x).id ≡ x.id)
      → (p o ≡ true → Evolves o (f o))
      → Follows xs (update_many p f xs)
  update-Follows p f xs o k h narrow keep step = (
    Rows-update_found id_of id Evolves p (is_order ctx.restaurant_id b id) f xs o Evolves-refl k h
        narrow is_order-id step,
    IsKeyed-update_many id_of p f xs keep k,
  )

  -- What the transaction finds of the order that was read: the same row, or one whose version has
  -- moved past the client's.
  commit_row :
      (s t : Db) (o : Order) (expected : ℕ)
      → find_order_by_id ctx b id s ≡ some o
      → Rows Evolves s.orders t.orders
      → (expected ≤ o.version) ⊎ (t ≡ s)
      → (p : Order) × (find_first (is_order ctx.restaurant_id b id) t.orders ≡ some p)
        × (p.version ≡ expected → o ≡ p)
  unfolding find_order_by_id
  commit_row s t o expected h r (inl le) =
      let (p, found, e) =
        find_first-Rows Evolves (is_order ctx.restaurant_id b id) s.orders t.orders o
          is_order-Evolves h r in
      (p, found, λ v. e.unchanged (omega (arith, e.version_le)))
  commit_row s t o expected h r (inr same) = (o, rw same h, λ v. refl)

  module _ (m : Db → Db) (expected : ℕ) (s : Db) where
    -- What a request relies on: unique identifiers, other requests that take orders forward, and a
    -- version that the client has seen, unless there were no other requests.
    pub record IsGuarded : Type 0 where
      pub keyed : IsKeyed id_of s.orders
      pub others : Follows s.orders (m s).orders
      pub seen :
          (o : Order) → find_order_by_id ctx b id s ≡ some o → (expected ≤ o.version) ⊎ (m s ≡ s)

    status_transaction-Follows :
        (current new : OrderStatus) (reason : Option String) (o : Order)
        → IsGuarded
        → find_order_by_id ctx b id s ≡ some o
        → Change o.type o.status new
        → Follows s.orders
            (update_status_transaction ctx b id expected current new reason (m s)).1.orders
    status_transaction-Follows current new reason o g h c =
        let (p, found, same) = commit_row s (m s) o expected h g.others.0 (g.seen o h) in
        Follows-trans s.orders (m s).orders _ g.others (
          rw (status_transaction_orders ctx b id expected current new reason (m s)) (
            update-Follows (is_version ctx.restaurant_id b id expected)
              (set_order_status new expected reason) (m s).orders p g.others.1 found
              (λ x v. ground arith) (λ x. refl)
              (λ v.
                set_order_status-Evolves ctx b id expected new reason p
                  (subst (λ (z : Order). Change z.type z.status new) (same (ground arith)) c) v)))

    payment_transaction-Follows :
        (env : Env) (method : PaymentMethod) (o : Order)
        → IsGuarded
        → find_order_by_id ctx b id s ≡ some o
        → Follows s.orders (payment_transaction env ctx b id expected method (m s)).1.orders
    payment_transaction-Follows env method o g h =
        let (p, found, same) = commit_row s (m s) o expected h g.others.0 (g.seen o h) in
        Follows-trans s.orders (m s).orders _ g.others (
          rw (payment_transaction_orders env ctx b id expected method (m s)) (
            update-Follows (is_payable ctx.restaurant_id b id expected)
              (set_paid env ctx method expected) (m s).orders p g.others.1 found
              (λ x v. ground arith) (λ x. refl) (set_paid-Evolves ctx b id expected env method p)))

    refund_transaction-Follows :
        (env : Env) (reason : String) (o : Order)
        → IsGuarded
        → find_order_by_id ctx b id s ≡ some o
        → is_paid o.payment_status ≡ true
        → Follows s.orders (refund_transaction env ctx b id expected reason (m s)).1.orders
    refund_transaction-Follows env reason o g h paid =
        let (p, found, same) = commit_row s (m s) o expected h g.others.0 (g.seen o h) in
        Follows-trans s.orders (m s).orders _ g.others (
          rw (refund_transaction_orders env ctx b id expected reason (m s)) (
            update-Follows (is_version ctx.restaurant_id b id expected)
              (set_refunded env ctx reason expected) (m s).orders p g.others.1 found
              (λ x v. ground arith) (λ x. refl)
              (λ v.
                set_refunded-Evolves ctx b id expected env reason p
                  (subst (λ (z : Order). is_paid z.payment_status ≡ true) (same (ground arith))
                    paid)
                  v)))

    unmoved : IsGuarded → (t : Db) → t ≡ s → Follows s.orders t.orders
    unmoved g t e = rw e (Follows-refl s.orders g.keyed)

    -- A change of status takes every order forward, by Evolves, and keeps identifiers unique, whether it
    -- succeeds or fails. Between its read of the order and its transaction other requests may write, if they
    -- too take the orders forward and the client's version is not beyond that of the order that is read.
    pub update_order_status-Follows :
        (new : OrderStatus) (reason : Option String)
        → IsGuarded
        → Follows s.orders (update_order_status m ctx b id new expected reason s).1.orders
    update_order_status-Follows new reason g = elim (Option-cases (find_order_by_id ctx b id s)) [
      | inl h ↦ unmoved g _ (update_order_status-none m ctx b id expected reason s new h)
      | inr (o, h) ↦ elim (update_order_status-some m ctx b id expected reason s new o h) [
        | inl e ↦ unmoved g _ e
        | inr (_, valid, e) ↦ rw e (
            status_transaction-Follows o.status new reason o g h
              (valid-Change o.type o.status new valid))
      ]
    ]

    -- A cancellation takes every order forward, by Evolves, and keeps identifiers unique, whether it
    -- succeeds or fails. Between its read of the order and its transaction other requests may write, if they
    -- too take the orders forward and the client's version is not beyond that of the order that is read.
    pub cancel_order-Follows :
        (reason : Option String)
        → IsGuarded
        → Follows s.orders (cancel_order m ctx b id expected reason s).1.orders
    cancel_order-Follows reason g = elim (Option-cases (find_order_by_id ctx b id s)) [
      | inl h ↦ unmoved g _ (cancel_order-none m ctx b id expected reason s h)
      | inr (o, h) ↦ elim (cancel_order-some m ctx b id expected reason s o h) [
        | inl e ↦ unmoved g _ e
        | inr (live, e) ↦ rw e (
            status_transaction-Follows o.status OrderStatus.cancelled reason o g h
              (inr (inr (live, refl))))
      ]
    ]

    -- A payment takes every order forward, by Evolves, and keeps identifiers unique, whether it
    -- succeeds or fails. Between its read of the order and its transaction other requests may write, if they
    -- too take the orders forward and the client's version is not beyond that of the order that is read.
    pub process_order_payment-Follows :
        (env : Env) (amount : ℕ) (method : PaymentMethod)
        → IsGuarded
        → Follows s.orders (process_order_payment m env ctx b id expected amount method s).1.orders
    process_order_payment-Follows env amount method g =
        elim (Option-cases (find_order_by_id ctx b id s)) [
          | inl h ↦
              unmoved g _ (process_order_payment-none m env ctx b id expected s amount method h)
          | inr (o, h) ↦
              elim (process_order_payment-some m env ctx b id expected s amount method o h) [
                | inl e ↦ unmoved g _ e
                | inr (live, right, e) ↦ rw e (payment_transaction-Follows env method o g h)
              ]
        ]

    -- A refund takes every order forward, by Evolves, and keeps identifiers unique, whether it
    -- succeeds or fails. Between its read of the order and its transaction other requests may write, if they
    -- too take the orders forward and the client's version is not beyond that of the order that is read.
    pub process_order_refund-Follows :
        (env : Env) (reason : String)
        → IsGuarded
        → Follows s.orders (process_order_refund m env ctx b id expected reason s).1.orders
    process_order_refund-Follows env reason g = elim (Option-cases (find_order_by_id ctx b id s)) [
      | inl h ↦ unmoved g _ (process_order_refund-none m env ctx b id expected s reason h)
      | inr (o, h) ↦ elim (process_order_refund-some m env ctx b id expected s reason o h) [
        | inl e ↦ unmoved g _ e
        | inr (paid, e) ↦ rw e (refund_transaction-Follows env reason o g h paid)
      ]
    ]
