-- ===== src/Orders/Trace.antt =====
-- Sequences of requests on orders: any of them, from a sound database, leaves a sound database in which
-- every order has come forward.
use Prim.Native.String.{String}
use restaurant_management_ba.Base.{
  ℕ, ◌≡◌, refl, inl, inr, Option, some, List, [], ◌∷◌, All, arith, Option-cases, false,
}
use restaurant_management_ba.Model.{
  Db, Order, OrderStatus, PaymentMethod, ItemSnapshot, TenantContext, is_terminal, is_cancelled,
}
use restaurant_management_ba.Store.{find_first}
use restaurant_management_ba.Orders.Find.{is_order}
use restaurant_management_ba.Orders.Graph.{valid-Change, live-Change}
use restaurant_management_ba.Exec.{transaction}
use restaurant_management_ba.Env.{Env, IsEnv}
use restaurant_management_ba.Orders.Create.{OrderPayload, create_order_transaction}
use restaurant_management_ba.Orders.Append.{append_items}
use restaurant_management_ba.Orders.Find.{find_order_by_id}
use restaurant_management_ba.Orders.Service.{
  update_order_status, cancel_order, process_order_payment, process_order_refund,
}
use restaurant_management_ba.Orders.Requests.{
  update_order_status-none, update_order_status-some, cancel_order-none, cancel_order-some,
  process_order_payment-none, process_order_payment-some, process_order_refund-none,
  process_order_refund-some,
}
use restaurant_management_ba.Orders.Sound.{
  IsSound, status_transaction-IsSound, payment-IsSound, refund-IsSound,
}
use restaurant_management_ba.Orders.Creation.{
  IsPayload, IsAfter, IsAfter-refl, IsAfter-trans, create_order_transaction-IsAfter,
  transaction_keeps,
}
use restaurant_management_ba.Orders.Appending.{append_items-IsAfter}
use restaurant_management_ba.Orders.Monotone.{
  IsGuarded, Follows-refl, update_order_status-Follows, cancel_order-Follows,
  process_order_payment-Follows, process_order_refund-Follows,
}

-- The writes on orders, with what each is given.
pub data Request : Type 0 where
  create : TenantContext → ℕ → OrderPayload → List ItemSnapshot → Option String → Request
  append : TenantContext → ℕ → ℕ → List ItemSnapshot → Request
  set_status : TenantContext → ℕ → ℕ → OrderStatus → ℕ → Option String → Request
  cancel : TenantContext → ℕ → ℕ → ℕ → Option String → Request
  pay : TenantContext → ℕ → ℕ → ℕ → ℕ → PaymentMethod → Request
  refund : TenantContext → ℕ → ℕ → ℕ → String → Request

abbrev pub IsRequest : Env → Request → Type 0
IsRequest env (create ctx b p items key) = IsPayload env p items
IsRequest env _ = Unit

abbrev alone : Db → Db
alone s = s

-- The database after a request that no other interrupts.
unfoldable pub serve_request : Env → Request → Db → Db
serve_request env (create ctx b p items key) s =
    (create_order_transaction env (λ n. alone) ctx b p items key s).1
serve_request env (append ctx b id items) s = (transaction (append_items ctx b id items) s).1
serve_request env (set_status ctx b id new v reason) s =
    (update_order_status alone ctx b id new v reason s).1
serve_request env (cancel ctx b id v reason) s = (cancel_order alone ctx b id v reason s).1
serve_request env (pay ctx b id v amount method) s =
    (process_order_payment alone env ctx b id v amount method s).1
serve_request env (refund ctx b id v reason) s =
    (process_order_refund alone env ctx b id v reason s).1

found_row :
    (ctx : TenantContext) (b id : ℕ) (s : Db) (o : Order)
    → find_order_by_id ctx b id s ≡ some o
    → find_first (is_order ctx.restaurant_id b id) s.orders ≡ some o
unfolding find_order_by_id
found_row ctx b id s o h = h

not_cancelled : (a : OrderStatus) → is_terminal a ≡ false → is_cancelled a ≡ false
not_cancelled a h = ground arith

guarded_alone :
    (ctx : TenantContext) (b id v : ℕ) (s : Db) → IsSound s → IsGuarded ctx b id alone v s
guarded_alone ctx b id v s h = record {
  keyed = h.keyed;
  others = Follows-refl s.orders h.keyed;
  seen = λ o e. inr refl;
}

module _ (ctx : TenantContext) (b id v : ℕ) (s : Db) (h : IsSound s) where
  set_status-IsSound :
      (new : OrderStatus) (reason : Option String)
      → IsSound (update_order_status alone ctx b id new v reason s).1
  set_status-IsSound new reason = elim (Option-cases (find_order_by_id ctx b id s)) [
    | inl e ↦ rw (update_order_status-none alone ctx b id v reason s new e) h
    | inr (o, found) ↦ elim (update_order_status-some alone ctx b id v reason s new o found) [
      | inl e ↦ rw e h
      | inr (going, valid, e) ↦
          let c = valid-Change o.type o.status new valid in
          rw e (
            status_transaction-IsSound ctx b id v s o h (found_row ctx b id s o found) new reason
              (live-Change o.type o.status new c going) o.status c
              (rw e at (
                update_order_status-Follows ctx b id alone v s new reason
                  (guarded_alone ctx b id v s h))))
    ]
  ]

  cancel-IsSound : (reason : Option String) → IsSound (cancel_order alone ctx b id v reason s).1
  cancel-IsSound reason = elim (Option-cases (find_order_by_id ctx b id s)) [
    | inl e ↦ rw (cancel_order-none alone ctx b id v reason s e) h
    | inr (o, found) ↦ elim (cancel_order-some alone ctx b id v reason s o found) [
      | inl e ↦ rw e h
      | inr (live, e) ↦ rw e (
          status_transaction-IsSound ctx b id v s o h (found_row ctx b id s o found)
            OrderStatus.cancelled reason (not_cancelled o.status live) o.status
            (inr (inr (live, refl)))
            (rw e at
              (cancel_order-Follows ctx b id alone v s reason (guarded_alone ctx b id v s h))))
    ]
  ]

  pay-IsSound :
      (env : Env) (amount : ℕ) (method : PaymentMethod)
      → IsSound (process_order_payment alone env ctx b id v amount method s).1
  pay-IsSound env amount method = elim (Option-cases (find_order_by_id ctx b id s)) [
    | inl e ↦ rw (process_order_payment-none alone env ctx b id v s amount method e) h
    | inr (o, found) ↦
        elim (process_order_payment-some alone env ctx b id v s amount method o found) [
          | inl e ↦ rw e h
          | inr (_, _, e) ↦ rw e (
              payment-IsSound env ctx b id v method s
                (rw e at (
                  process_order_payment-Follows ctx b id alone v s env amount method
                    (guarded_alone ctx b id v s h)))
                h)
        ]
  ]

  refund_keeps-IsSound :
      (env : Env) (reason : String) → IsSound (process_order_refund alone env ctx b id v reason s).1
  refund_keeps-IsSound env reason = elim (Option-cases (find_order_by_id ctx b id s)) [
    | inl e ↦ rw (process_order_refund-none alone env ctx b id v s reason e) h
    | inr (o, found) ↦ elim (process_order_refund-some alone env ctx b id v s reason o found) [
      | inl e ↦ rw e h
      | inr (_, e) ↦ rw e (
          refund-IsSound env ctx b id v reason s
            (rw e at (
              process_order_refund-Follows ctx b id alone v s env reason
                (guarded_alone ctx b id v s h)))
            h)
    ]
  ]

-- One request.
pub serve_request-IsAfter :
    (env : Env) (q : Request) (s : Db)
    → IsEnv env
    → IsRequest env q
    → IsSound s
    → IsAfter s (serve_request env q s)
unfolding serve_request
serve_request-IsAfter env (create ctx b p items key) s e w h =
    create_order_transaction-IsAfter env (λ n. alone) ctx b p items key s e w
      (λ n t k. IsAfter-refl t k) h
serve_request-IsAfter env (append ctx b id items) s e w h =
    transaction_keeps (IsAfter s) (append_items ctx b id items) s
      (λ r done. append_items-IsAfter ctx b id items s h done) (IsAfter-refl s h)
serve_request-IsAfter env (set_status ctx b id new v reason) s e w h = record {
  sound = set_status-IsSound ctx b id v s h new reason;
  follows =
      update_order_status-Follows ctx b id alone v s new reason (guarded_alone ctx b id v s h);
}
serve_request-IsAfter env (cancel ctx b id v reason) s e w h = record {
  sound = cancel-IsSound ctx b id v s h reason;
  follows = cancel_order-Follows ctx b id alone v s reason (guarded_alone ctx b id v s h);
}
serve_request-IsAfter env (pay ctx b id v amount method) s e w h = record {
  sound = pay-IsSound ctx b id v s h env amount method;
  follows =
      process_order_payment-Follows ctx b id alone v s env amount method
        (guarded_alone ctx b id v s h);
}
serve_request-IsAfter env (refund ctx b id v reason) s e w h = record {
  sound = refund_keeps-IsSound ctx b id v s h env reason;
  follows =
      process_order_refund-Follows ctx b id alone v s env reason (guarded_alone ctx b id v s h);
}

unfoldable pub serve_all : Env → List Request → Db → Db
serve_all env [] s = s
serve_all env (q ∷ qs) s = serve_all env qs (serve_request env q s)

-- Any sequence of creations, appends, status changes, cancellations, payments and refunds, one after the
-- other, whether they succeed or fail, takes a sound database to a sound one, given that new
-- identifiers are fresh, a rounded amount is at most half a cent away, a column stores whole cents as they
-- are, and every payload to create has the subtotal of its items, a discount of whole cents and another
-- status than cancelled. Sound: order identifiers are unique; every item belongs to
-- an order; an order's subtotal is the sum of its items' and its total is that less the discount; a table
-- of a branch has at most one active order that is not from a QR code; a coupon's count of uses is the
-- number of its orders that are not cancelled. Every order that was there is still there, by Evolves:
-- its identity, table, coupon and discount are the same, its version and status have only moved forward,
-- it is the same row if its version is the same, a delivered or cancelled status has not changed, a
-- payment has only moved on from pending to paid to refunded, and a settled total has not changed.
pub serve_all-IsAfter :
    (env : Env) (qs : List Request) (s : Db)
    → IsEnv env
    → All (IsRequest env) qs
    → IsSound s
    → IsAfter s (serve_all env qs s)
unfolding serve_all
serve_all-IsAfter env [] s e w h = IsAfter-refl s h
serve_all-IsAfter env (q ∷ qs) s e w h =
    let first = serve_request-IsAfter env q s e w.0 h in
    IsAfter-trans s (serve_request env q s) _ first
      (serve_all-IsAfter env qs (serve_request env q s) e w.1 first.sound)
