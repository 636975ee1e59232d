-- ===== src/Sessions/Kept.antt =====
-- What the operations of a session keep of the orders: all but the confirmation of a round leave orders
-- alone, and a confirmation goes through the orders' own operations.
use restaurant_management_ba.Base.{
  ℕ, ◌≡◌, refl, Option, none, some, List, [], arith, Bool-cases, inl, inr, Option-cases,
}
use restaurant_management_ba.Model.{
  Db, Order, ItemSnapshot, TableSession, SessionOrder, TenantContext,
}
use restaurant_management_ba.Exec.{Result, ok, err}
use restaurant_management_ba.Env.{Env, IsEnv}
use restaurant_management_ba.Orders.Create.{order_meta, create_order_in_client}
use restaurant_management_ba.Orders.Sound.{IsSound}
use restaurant_management_ba.Orders.Creation.{IsAfter, create_order_in_client-IsAfter, IsPayload}
use restaurant_management_ba.Orders.Appending.{append_items-IsAfter}
use restaurant_management_ba.Store.{find_first, find_many}
use restaurant_management_ba.Sessions.Rounds.{linked_order}
use restaurant_management_ba.Sessions.Find.{is_pending, is_linked}
use restaurant_management_ba.Sessions.Confirm.{
  round_payload, can_append, snapshot_items, create_round_order, place_round, finish_round,
  confirm_round,
}

-- Two states with the same orders, items and coupons.
pub record IsAlike (s t : Db) : Type 0 where
  pub orders : t.orders ≡ s.orders
  pub items : t.items ≡ s.items
  pub coupons : t.coupons ≡ s.coupons

pub IsAfter-IsAlike : (s t u : Db) → IsAfter s t → IsAlike t u → IsAfter s u
IsAfter-IsAlike s t u h k = record {
  sound = record {
    keyed = rw k.orders h.sound.keyed;
    balanced = rw (k.orders, k.items) h.sound.balanced;
    single = rw k.orders h.sound.single;
    ledger = rw (k.orders, k.coupons) h.sound.ledger;
  };
  follows = rw k.orders h.follows;
}

round-IsPayload :
    (env : Env) (x : TableSession) (items : List ItemSnapshot)
    → IsPayload env (round_payload x items) items
round-IsPayload env x items = record { whole = (0, omega arith); summed = refl; live = refl }

abbrev snapshots_or_none : Result (List ItemSnapshot) → List ItemSnapshot
snapshots_or_none (ok items) = items
snapshots_or_none (err e) = []

module _ (env : Env) (ctx : TenantContext) (x : TableSession) where
  create_round_order_ok :
      (items : List ItemSnapshot) (s : Db) {n : ℕ}
      → (create_round_order env ctx x items s).0 ≡ ok n
      → let inner =
          create_order_in_client env ctx x.branch_id
            (round_payload x items)
            items
            none
            (order_meta env ctx x.branch_id s)
            s in
        (o : Order) × (inner.0 ≡ ok (some o)) × ((create_round_order env ctx x items s).1 ≡ inner.1)
  unfolding create_round_order
  create_round_order_ok items s h = ground arith

  created-IsAfter :
      (items : List ItemSnapshot) (s : Db) {n : ℕ}
      → IsEnv env
      → IsSound s
      → (create_round_order env ctx x items s).0 ≡ ok n
      → IsAfter s (create_round_order env ctx x items s).1
  created-IsAfter items s e h done =
      let (o, made, same) = create_round_order_ok items s done in
      rw same (
        create_order_in_client-IsAfter env ctx x.branch_id (round_payload x items) items none
          (order_meta env ctx x.branch_id s) s e (round-IsPayload env x items) h made)

  pub place_round-IsAfter :
      (existing : Option Order) (items : List ItemSnapshot) (s : Db) {n : ℕ}
      → IsEnv env
      → IsSound s
      → (place_round env ctx x existing items s).0 ≡ ok n
      → IsAfter s (place_round env ctx x existing items s).1
  unfolding place_round
  place_round-IsAfter none items s e h done = created-IsAfter items s e h done
  place_round-IsAfter (some o) items s e h done = elim (Bool-cases (can_append o)) [
    | inl y ↦ rw y (append_items-IsAfter ctx x.branch_id o.id items s h (rw y at done))
    | inr m ↦ rw m (created-IsAfter items s e h (rw m at done))
  ]

  finish_round-IsAlike :
      (id : ℕ) (round : SessionOrder) (order_id total : ℕ) (s : Db)
      → IsAlike s (finish_round env ctx id round order_id total s).1
  unfolding finish_round
  finish_round-IsAlike id round order_id total s = ground arith

  -- A confirmation that returns has placed the round and then written to the session alone.
  pub confirm_round_ok :
      (id : ℕ) (s : Db) {n : ℕ}
      → (confirm_round env ctx id x s).0 ≡ ok n
      → (items : List ItemSnapshot) × (let placed =
            place_round env ctx x (linked_order ctx.restaurant_id x s) items s in
          (placed.0 ≡ ok n) × IsAlike placed.1 (confirm_round env ctx id x s).1)
  unfolding confirm_round
  confirm_round_ok id s h = elim (Option-cases (find_first (is_pending id) s.session_orders)) [
    | inl e ↦ absurd (ground (arith, e))
    | inr (round, e) ↦ (
      snapshots_or_none (
          snapshot_items ctx.restaurant_id round.order_number
            (find_many (is_linked round.id) s.session_items) s.products),
      (ground (arith, e), grind (arith, e, finish_round-IsAlike)),
    )
  ]
