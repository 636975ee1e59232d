-- ===== src/Orders/Creation.antt =====
-- Creating an order and appending to one keep what holds of the database.
use Prim.Native.String.{String}
use mathlib.Core.Path.{subst}
use native.Mathlib.Nat.{mul-sub}
use restaurant_management_ba.Base.{
  ℕ, ◌*◌, ◌-◌, ◌≡◌, refl, sym, ap, ◌∙◌, map, inl, inr, false, Option, none, some, List, [], ◌∷◌,
  ◌++◌, arith, Option-cases, sum_of, ◌==◌, if◌then◌else◌, zero, suc, Bool-cases,
}
use restaurant_management_ba.Model.{
  Db, Order, OrderStatus, ItemSnapshot, TenantContext, is_cancelled,
}
use restaurant_management_ba.Store.{update_many, count, IsKeyed-append, Rows-append}
use restaurant_management_ba.Exec.{
  Action, Result, ok, err, transaction, is_unique_violation, bind_rule, pure,
}
use restaurant_management_ba.Env.{Env, IsEnv, IsWhole}
use restaurant_management_ba.Coupons.Apply.{apply_coupon, is_coupon, use_once}
use restaurant_management_ba.Orders.Create.{
  OrderPayload, Meta, new_order, settle_discount, create_order_in_client, create_order_transaction,
  attempts, or_else, order_meta, item_of,
}
use restaurant_management_ba.Orders.Growth.{
  create_ok, created_order, settled_discount, settle_discount_keeps,
}
use restaurant_management_ba.Orders.Evolution.{Evolves, Evolves-refl}
use restaurant_management_ba.Orders.Monotone.{id_of, Follows, Follows-refl, Follows-trans}
use restaurant_management_ba.Orders.Invariant.Balance.{create-IsBalanced}
use restaurant_management_ba.Orders.Invariant.Tables.{create-IsSingle}
use restaurant_management_ba.Orders.Invariant.Ledger.{
  IsLedger, create-IsLedger-none, create-IsLedger-some,
}
use restaurant_management_ba.Orders.Sound.{IsSound}

settle_none :
    (env : Env) (ctx : TenantContext) (p : OrderPayload) (items : List ItemSnapshot) (s : Db)
    → p.coupon_id ≡ none
    → (settle_discount env ctx p items s).1 ≡ s
unfolding settle_discount
settle_none env ctx p items s e = ground arith

settle_some :
    (env : Env) (ctx : TenantContext) (p : OrderPayload) (items : List ItemSnapshot) (s : Db)
    (k : ℕ) {d : ℕ}
    → p.coupon_id ≡ some k
    → (settle_discount env ctx p items s).0 ≡ ok d
    → (settle_discount env ctx p items s).1.coupons
      ≡ update_many (is_coupon ctx.restaurant_id k) use_once s.coupons
unfolding settle_discount
settle_some env ctx p items s k e h = ground arith

settle-IsWhole :
    (env : Env) (ctx : TenantContext) (p : OrderPayload) (items : List ItemSnapshot) (s : Db)
    {d : ℕ}
    → IsWhole env p.discount_amount
    → (settle_discount env ctx p items s).0 ≡ ok d
    → IsWhole env d
unfolding settle_discount
settle-IsWhole env ctx p items s {d} w h = elim (Option-cases p.coupon_id) [
  | inl alone ↦ let same : p.discount_amount ≡ d = ground (arith, h, alone) in (w.0, sym same ∙ w.1)
  | inr (k, has) ↦
      bind_rule (λ o. o.0 ≡ ok d → IsWhole env d)
        (apply_coupon env ctx k p.subtotal (map item_of items)) (λ n. pure (n * env.parts)) s
        (λ n t e m. (n, let same : n * env.parts ≡ d = ground (arith, m) in sym same))
        (λ x t e m. absurd cc) (rw (settle_discount, has) at h)
]

parts-minus : (a n p : ℕ) → a * p - n * p ≡ (a - n) * p
parts-minus a n p = omega (arith, mul-sub p a n)

-- Of a whole number of cents both columns are exact.
new_total :
    (env : Env) (ctx : TenantContext) (b : ℕ) (p : OrderPayload) (id : ℕ) (date : String)
    (number d : ℕ)
    → IsEnv env
    → IsWhole env d
    → let o = new_order env ctx b p id date number d in o.total ≡ o.subtotal - o.discount_amount
unfolding new_order
new_total env ctx b p id date number d e (n, w) =
    rw (w, parts-minus p.subtotal n env.parts, e.stored (p.subtotal - n), e.stored n) refl

-- What a caller of the repository answers for: the subtotal is that of the items, the discount is a whole
-- number of cents, and an order is not created cancelled.
pub record IsPayload (env : Env) (p : OrderPayload) (items : List ItemSnapshot) : Type 0 where
  pub whole : IsWhole env p.discount_amount
  pub summed : p.subtotal ≡ sum_of (λ i. i.subtotal) items
  pub live : is_cancelled (or_else p.status OrderStatus.pending) ≡ false

module _ (env : Env) (ctx : TenantContext) (b : ℕ) (p : OrderPayload) (items : List ItemSnapshot)
    (key : Option String) (meta : Meta) (s : Db) where
  -- A creation that returns puts a new order at the end, and the database is sound.
  pub create-IsSound :
      {r : Option Order}
      → IsEnv env
      → IsPayload env p items
      → IsSound s
      → (create_order_in_client env ctx b p items key meta s).0 ≡ ok r
      → IsSound (create_order_in_client env ctx b p items key meta s).1
  unfolding new_order
  create-IsSound e w h done =
      let (orders, its, coupons, free, paid, number) =
        create_ok env ctx b p items key meta s done in
      let o = created_order env ctx b p items key meta s in
      let unchanged = settle_discount_keeps env ctx p items s in
      let fresh : count (λ (x : Order). x.id == o.id) s.orders ≡ 0 =
        subst (λ xs. count (λ (x : Order). x.id == o.id) xs ≡ 0) unchanged.0
          (e.fresh (settle_discount env ctx p items s).1) in
      record {
        keyed = rw orders (IsKeyed-append id_of s.orders o fresh h.keyed);
        balanced =
            rw (orders, its)
              (create-IsBalanced ctx.restaurant_id o items s.orders s.items fresh w.summed
                (new_total env ctx b p o.id meta.date_key o.order_number
                  (settled_discount env ctx b p items key meta s) e
                  (settle-IsWhole env ctx p items s w.whole (ap (λ x. x.0) paid)))
                h.balanced);
        single = rw orders (create-IsSingle s p o refl refl free h.single);
        ledger = rw (orders, coupons) (counted o (ap (λ x. x.0) paid));
      }
    where
      counted :
          (o : Order)
          → (settle_discount env ctx p items s).0
            ≡ ok (settled_discount env ctx b p items key meta s)
          → IsLedger
              (s.orders ++ (created_order env ctx b p items key meta s ∷ []))
              (settle_discount env ctx p items s).1.coupons
      counted o paid = elim (Option-cases p.coupon_id) [
        | inl alone ↦
            rw (settle_none env ctx p items s alone)
              (create-IsLedger-none _ s.orders s.coupons alone h.ledger)
        | inr (k, has) ↦
            rw (settle_some env ctx p items s k has paid)
              (create-IsLedger-some k _ s.orders s.coupons has w.live h.ledger)
      ]

module _ {A : Type 0} (P : Db → Type 0) where
  rolled_back :
      (s : Db) (r : Result A × Db)
      → ((a : A) → r.0 ≡ ok a → P r.1)
      → P s
      → P (elim r.0 as (λ _. Result A × Db) [ ok a ↦ (ok a, r.1) | err e ↦ (err e, s) ]).1
  rolled_back s (ok a, t) done h = done a refl
  rolled_back s (err e, t) done h = h

  retried :
      (r again : Result A × Db)
      → P r.1
      → P again.1
      → P
          (elim r.0 as (λ _. Result A × Db) [
            | ok a ↦ (ok a, r.1)
            | err e ↦ if is_unique_violation e then again else (err e, r.1)
          ]).1
  retried (ok a, t) again h k = h
  retried (err e, t) again h k = elim (Bool-cases (is_unique_violation e)) [
    | inl y ↦ rw y k
    | inr n ↦ rw n h
  ]

  -- One attempt: a transaction that fails leaves the database as it was.
  pub transaction_keeps :
      (body : Action A) (s : Db)
      → ((a : A) → (body s).0 ≡ ok a → P (body s).1)
      → P s
      → P (transaction body s).1
  unfolding transaction
  transaction_keeps body s done h = rolled_back s (body s) done h

  -- What every attempt keeps, and what other requests keep between attempts, holds at the end.
  pub attempts_keep :
      (between : ℕ → Db → Db) (body : Action A)
      → ((n : ℕ) (t : Db) → P t → P (between n t))
      → ((t : Db) (a : A) → P t → (body t).0 ≡ ok a → P (body t).1)
      → (n : ℕ) (s : Db) → P s
      → P (attempts n between body s).1
  unfolding attempts
  attempts_keep between body others keep zero s h = transaction_keeps body s (λ a. keep s a h) h
  attempts_keep between body others keep (suc n) s h =
      retried (transaction body s) (attempts n between body (between n s))
        (transaction_keeps body s (λ a. keep s a h) h)
        (attempts_keep between body others keep n (between n s) (others n s h))

-- What one state may become: a sound one, with every order brought forward.
pub record IsAfter (s t : Db) : Type 0 where
  pub sound : IsSound t
  pub follows : Follows s.orders t.orders

pub IsAfter-refl : (s : Db) → IsSound s → IsAfter s s
IsAfter-refl s h = record { sound = h; follows = Follows-refl s.orders h.keyed }

pub IsAfter-trans : (s t u : Db) → IsAfter s t → IsAfter t u → IsAfter s u
IsAfter-trans s t u h k = record {
  sound = k.sound;
  follows = Follows-trans s.orders t.orders u.orders h.follows k.follows;
}

-- One attempt that returns.
pub create_order_in_client-IsAfter :
    (env : Env) (ctx : TenantContext) (b : ℕ) (p : OrderPayload) (items : List ItemSnapshot)
    (key : Option String) (meta : Meta) (s : Db) {r : Option Order}
    → IsEnv env
    → IsPayload env p items
    → IsSound s
    → (create_order_in_client env ctx b p items key meta s).0 ≡ ok r
    → IsAfter s (create_order_in_client env ctx b p items key meta s).1
create_order_in_client-IsAfter env ctx b p items key meta s e w h done =
    let orders = (create_ok env ctx b p items key meta s done).0 in
    let sound = create-IsSound env ctx b p items key meta s e w h done in
    record {
      sound = sound;
      follows = (
        rw orders (
            Rows-append Evolves Evolves-refl s.orders
              (created_order env ctx b p items key meta s ∷ [])),
        sound.keyed,
      );
    }

-- A creation with its retries takes a sound database to a sound one, and every order forward by Evolves,
-- however it ends, given that new identifiers are fresh, a rounded amount is at most half a cent away, a
-- column stores whole cents as they are, the payload has the subtotal of its items, a discount of whole
-- cents and another status than cancelled, and what other requests write between two attempts also takes
-- sound databases to sound ones and orders forward.
pub create_order_transaction-IsAfter :
    (env : Env) (between : ℕ → Db → Db) (ctx : TenantContext) (b : ℕ) (p : OrderPayload)
    (items : List ItemSnapshot) (key : Option String) (s : Db)
    → IsEnv env
    → IsPayload env p items
    → ((n : ℕ) (t : Db) → IsSound t → IsAfter t (between n t))
    → IsSound s
    → IsAfter s (create_order_transaction env between ctx b p items key s).1
unfolding create_order_transaction
create_order_transaction-IsAfter env between ctx b p items key s e w others h =
    let meta = order_meta env ctx b s in
    attempts_keep (IsAfter s) between (create_order_in_client env ctx b p items key meta)
      (λ n t k. IsAfter-trans s t (between n t) k (others n t k.sound))
      (λ t r k done.
        IsAfter-trans s t _ k
          (create_order_in_client-IsAfter env ctx b p items key meta t e w k.sound done))
      2 s (IsAfter-refl s h)
