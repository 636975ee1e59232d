-- ===== src/Orders/Sound.antt =====
-- What holds of the database between requests on orders, and why a transaction on one order keeps it.
use Prim.Native.String.{String}
use mathlib.Core.Path.{subst}
use restaurant_management_ba.Base.{
  ℕ, ◌≡◌, refl, sym, ◌∙◌, inl, inr, Bool, true, false, Option, some, List, arith, All, All-map,
  Option-cases, Bool-cases, if◌then◌else◌,
}
use restaurant_management_ba.Model.{
  Db, Order, OrderItem, OrderStatus, PaymentMethod, TenantContext, is_cancelled,
}
use restaurant_management_ba.Store.{
  find_first, find_first_holds, update_many, count, IsKeyed, only_found, count-found,
  find_first-update_found, length-update_many,
}
use restaurant_management_ba.Env.{Env}
use restaurant_management_ba.Orders.Find.{is_order}
use restaurant_management_ba.Orders.Changes.{
  is_version, is_payable, is_used_coupon, give_back, set_order_status, set_paid, set_refunded,
  update_status_transaction, payment_transaction, refund_transaction,
}
use restaurant_management_ba.Orders.Outcome.{
  status_transaction_orders, status_transaction_missed, status_transaction_effects, returned,
  payment_transaction_orders, payment_transaction_keeps, refund_transaction_orders,
  refund_transaction_keeps,
}
use restaurant_management_ba.Orders.Graph.{Change}
use restaurant_management_ba.Orders.Monotone.{is_order-id, id_of, Follows}
use restaurant_management_ba.Orders.Invariant.Balance.{IsBalanced, IsPriced, update-IsBalanced}
use restaurant_management_ba.Orders.Invariant.Tables.{IsSingle, evolve-IsSingle}
use restaurant_management_ba.Orders.Invariant.Ledger.{
  uses, IsLedger, update-IsLedger, change-IsLedger, cancel-IsLedger,
}

-- What holds between requests.
pub record IsSound (s : Db) : Type 0 where
  pub keyed : IsKeyed id_of s.orders
  pub balanced : IsBalanced s.orders s.items
  pub single : IsSingle s.orders
  pub ledger : IsLedger s.orders s.coupons

module _ (ctx : TenantContext) (b id expected : ℕ) (s : Db) (p : Order) (sound : IsSound s)
    (found : find_first (is_order ctx.restaurant_id b id) s.orders ≡ some p) where
  hits :
      count (is_version ctx.restaurant_id b id expected) s.orders
      ≡ (if is_version ctx.restaurant_id b id expected p then 1 else 0)
  hits =
      count-found id_of id (is_version ctx.restaurant_id b id expected)
        (is_order ctx.restaurant_id b id) s.orders p sound.keyed found (λ x v. ground arith)
        (λ x v. ground arith)

  found_id : p.id ≡ id
  found_id =
      is_order-id ctx b id p (find_first_holds (is_order ctx.restaurant_id b id) s.orders p found)

  found_restaurant : p.restaurant_id ≡ ctx.restaurant_id
  found_restaurant =
      restaurant_of (find_first_holds (is_order ctx.restaurant_id b id) s.orders p found)
    where
      restaurant_of : is_order ctx.restaurant_id b id p ≡ true → p.restaurant_id ≡ ctx.restaurant_id
      restaurant_of h = ground arith

  only_version : All (λ x. is_version ctx.restaurant_id b id expected x ≡ true → x ≡ p) s.orders
  only_version =
      All-map (λ x. x.id ≡ p.id → x ≡ p)
        (λ x. is_version ctx.restaurant_id b id expected x ≡ true → x ≡ p) s.orders
        (λ x h v. h (is_order-id ctx b id x (ground arith) ∙ sym found_id))
        (only_found id_of (is_order ctx.restaurant_id b id) s.orders p sound.keyed found)

  module _ (new : OrderStatus) (reason : Option String) (live : is_cancelled p.status ≡ false) where
    abbrev change : Order → Order
    change = set_order_status new expected reason

    abbrev changed : List Order
    changed = update_many (is_version ctx.restaurant_id b id expected) change s.orders

    -- The coupon of a cancelled order, if it has one, is given back.
    gone :
        count (is_version ctx.restaurant_id b id expected) s.orders ≡ 1
        → is_cancelled new ≡ true
        → IsLedger changed (returned ctx.restaurant_id p.coupon_id s.coupons)
    gone n e = elim (Option-cases p.coupon_id) [
      | inl alone ↦
          subst (λ k. IsLedger changed (returned ctx.restaurant_id k s.coupons)) (sym alone)
            (change-IsLedger (is_version ctx.restaurant_id b id expected) change p s.orders
              only_version s.coupons (λ r c. ground arith) sound.ledger)
      | inr (k, has) ↦
          subst (λ x. IsLedger changed (returned ctx.restaurant_id x s.coupons)) (sym has)
            (subst (λ r. IsLedger changed (update_many (is_used_coupon r k) give_back s.coupons))
              found_restaurant
              (cancel-IsLedger (is_version ctx.restaurant_id b id expected) change p s.orders
                only_version k s.coupons n has live e sound.ledger))
    ]

    change-IsLedger_here :
        count (is_version ctx.restaurant_id b id expected) s.orders ≡ 1
        → IsLedger changed (
            if is_cancelled new
            then returned ctx.restaurant_id p.coupon_id s.coupons
            else s.coupons)
    change-IsLedger_here n = elim (Bool-cases (is_cancelled new)) [
      | inl e ↦ rw e (gone n e)
      | inr e ↦ rw e (
          change-IsLedger (is_version ctx.restaurant_id b id expected) change p s.orders
            only_version s.coupons (λ r c. rw (e, live)) sound.ledger)
    ]

    pub status_transaction-IsSound :
        (current : OrderStatus)
        → Change p.type p.status new
        → Follows s.orders
            (update_status_transaction ctx b id expected current new reason s).1.orders
        → IsSound (update_status_transaction ctx b id expected current new reason s).1
    status_transaction-IsSound current c follows =
        elim (Bool-cases (is_version ctx.restaurant_id b id expected p)) [
          | inl e ↦
              let n : count (is_version ctx.restaurant_id b id expected) s.orders ≡ 1 =
                rw (hits, e) in
              let (same_items, coupons) =
                status_transaction_effects ctx b id expected current new reason s (change p) n (
                  find_first-update_found id_of id (is_version ctx.restaurant_id b id expected)
                    (is_order ctx.restaurant_id b id) change s.orders p found (λ x. refl)
                  ∙ rw e) in
              let orders = status_transaction_orders ctx b id expected current new reason s in
              record {
                keyed = follows.1;
                balanced =
                    rw (orders, same_items)
                      (update-IsBalanced (is_version ctx.restaurant_id b id expected) change
                        s.orders s.items (λ o. refl) (λ o h. h) sound.balanced);
                single =
                    evolve-IsSingle s.orders _
                      (rw orders (
                        length-update_many (is_version ctx.restaurant_id b id expected) change
                          s.orders))
                      follows.0 sound.single;
                ledger = rw (orders, coupons) (change-IsLedger_here n);
              }
          | inr e ↦
              rw (status_transaction_missed ctx b id expected current new reason s (rw (hits, e)))
                sound
        ]

-- A guarded update of columns that no count and no sum reads.
plain-IsSound :
    (s t : Db) (p : Order → Bool) (f : Order → Order)
    → t.orders ≡ update_many p f s.orders
    → (t.items ≡ s.items) × (t.coupons ≡ s.coupons)
    → ((o : Order) → (f o).id ≡ o.id)
    → ((items : List OrderItem) (o : Order) → IsPriced items o → IsPriced items (f o))
    → ((r c : ℕ) (o : Order) → uses r c (f o) ≡ uses r c o)
    → Follows s.orders t.orders
    → IsSound s
    → IsSound t
plain-IsSound s t p f orders (items, coupons) same priced used follows sound = record {
  keyed = follows.1;
  balanced =
      rw (orders, items)
        (update-IsBalanced p f s.orders s.items same (priced s.items) sound.balanced);
  single =
      evolve-IsSingle s.orders t.orders (rw orders (length-update_many p f s.orders)) follows.0
        sound.single;
  ledger = rw (orders, coupons) (update-IsLedger p f s.orders s.coupons used sound.ledger);
}

pub payment-IsSound :
    (env : Env) (ctx : TenantContext) (b id expected : ℕ) (method : PaymentMethod) (s : Db)
    → Follows s.orders (payment_transaction env ctx b id expected method s).1.orders
    → IsSound s
    → IsSound (payment_transaction env ctx b id expected method s).1
payment-IsSound env ctx b id expected method s =
    plain-IsSound s _ (is_payable ctx.restaurant_id b id expected)
      (set_paid env ctx method expected) (payment_transaction_orders env ctx b id expected method s)
      (payment_transaction_keeps env ctx b id expected method s) (λ o. refl) (λ items o h. h)
      (λ r c o. refl)

pub refund-IsSound :
    (env : Env) (ctx : TenantContext) (b id expected : ℕ) (reason : String) (s : Db)
    → Follows s.orders (refund_transaction env ctx b id expected reason s).1.orders
    → IsSound s
    → IsSound (refund_transaction env ctx b id expected reason s).1
refund-IsSound env ctx b id expected reason s =
    plain-IsSound s _ (is_version ctx.restaurant_id b id expected)
      (set_refunded env ctx reason expected)
      (refund_transaction_orders env ctx b id expected reason s)
      (refund_transaction_keeps env ctx b id expected reason s) (λ o. refl) (λ items o h. h)
      (λ r c o. refl)
