-- ===== src/Sessions/Confirm.antt =====
-- confirmSession of src/modules/table-sessions/table-session.service.js: the round that waits becomes an order,
-- or more items of the order that earlier rounds became, at the products' prices of now.
use restaurant_management_ba.Base.{
  ℕ, ◌*◌, Bool, not, ◌&&◌, Option, none, some, List, [], ◌∷◌, ◌==◌, sum_of, if◌then◌else◌,
}
use restaurant_management_ba.Model.{
  Db, Order, OrderSource, OrderType, OrderStatus, ItemSnapshot, Product, TableSession,
  SessionStatus, SessionItem, SessionOrder, SessionOrderStatus, TenantContext, is_open, is_active,
  is_unpaid,
}
use restaurant_management_ba.Store.{find_first, find_many, update_many, count}
use restaurant_management_ba.Exec.{
  Action, Result, ok, err, gets, modify, check, or_throw, throw_if, transaction, pure, ◌>>=◌, ◌>>◌,
  not_found, business_rule, conflict, type_error, session_closed, nothing_awaiting, empty_order,
  product_missing, already_confirmed,
}
use restaurant_management_ba.Env.{Env}
use restaurant_management_ba.Orders.Create.{OrderPayload, create_order_in_client, order_meta}
use restaurant_management_ba.Orders.Append.{append_items}
use restaurant_management_ba.Sessions.Find.{
  is_session, is_linked, is_pending, line_total, require_session, SessionView, public_session,
}
use restaurant_management_ba.Sessions.Items.{is_sold}
use restaurant_management_ba.Sessions.Rounds.{is_empty, is_round, linked_order}

abbrev pub snapshot_of : Product → SessionItem → ℕ → ItemSnapshot
snapshot_of p i round = record {
  product_id = p.id;
  product_name = p.name;
  quantity = i.quantity;
  unit_price = p.price;
  subtotal = p.price * i.quantity;
  notes = none;
  selected_modifiers = none;
  round = round;
}

-- The loop over `pendingOrder.items`.
unfoldable pub snapshot_items : ℕ → ℕ → List SessionItem → List Product → Result (List ItemSnapshot)
snapshot_items restaurant round [] products = ok []
snapshot_items restaurant round (i ∷ is) products =
    let rest = snapshot_items restaurant round is products in
    elim (find_first (λ p. p.id == i.product_id && is_sold restaurant p) products) [
      | none ↦ err (not_found (product_missing i.product_id))
      | some p ↦ elim rest [ ok snapshots ↦ ok (snapshot_of p i round ∷ snapshots) | err e ↦ err e ]
    ]

abbrev pub round_payload : TableSession → List ItemSnapshot → OrderPayload
round_payload x items = record {
  source = some OrderSource.qr;
  type = some OrderType.dine_in;
  status = some OrderStatus.confirmed;
  payment_status = none;
  payment_method = none;
  table_id = some x.table_id;
  customer_id = none;
  coupon_id = none;
  subtotal = sum_of (λ i. i.subtotal) items;
  discount_amount = 0;
  notes = none;
  address = none;
}

abbrev pub can_append : Order → Bool
can_append o = is_active o.status && is_unpaid o.payment_status

unfoldable pub create_round_order :
    Env → TenantContext → TableSession → List ItemSnapshot → Action ℕ
create_round_order env ctx x items = do
  meta ← gets (order_meta env ctx x.branch_id)
  created ← create_order_in_client env ctx x.branch_id (round_payload x items) items none meta
  order ← or_throw created type_error
  pure order.id

-- `realOrderId`
unfoldable pub place_round :
    Env → TenantContext → TableSession → Option Order → List ItemSnapshot → Action ℕ
unfolding create_round_order
place_round env ctx x none items = create_round_order env ctx x items
place_round env ctx x (some o) items =
    let created = create_round_order env ctx x items in
    let appended = append_items ctx x.branch_id o.id items in
    if can_append o then appended else created

-- confirmOrder, with the conflict, and the session's update.
unfoldable pub finish_round : Env → TenantContext → ℕ → SessionOrder → ℕ → ℕ → Action (Unit {0})
finish_round env ctx session_id round order_id total = do
  confirmed ←
      gets (λ s.
        count (λ o. is_round session_id round.id o && is_pending session_id o) s.session_orders)
  modify (λ s. record s {
    session_orders =
        update_many (λ o. is_round session_id round.id o && is_pending session_id o)
          (λ o. record o {
            status = SessionOrderStatus.confirmed;
            order_id = some order_id;
            total = total;
            confirmed_at = some env.now;
          })
          s.session_orders;
  })
  throw_if (confirmed == 0) (conflict already_confirmed)
  modify (λ s. record s {
    sessions =
        update_many (is_session ctx.restaurant_id session_id)
          (λ x. record x { status = SessionStatus.active; confirmed_order_id = some order_id })
          s.sessions;
  })

-- The body of the transaction; the row is locked before it is read again.
unfoldable pub confirm_round : Env → TenantContext → ℕ → TableSession → Action ℕ
unfolding place_round finish_round
confirm_round env ctx session_id x = do
  locked ← gets (λ s. find_first (is_pending session_id) s.session_orders)
  round ← or_throw locked (business_rule nothing_awaiting)
  items ← gets (λ s. find_many (is_linked round.id) s.session_items)
  throw_if (is_empty items) (business_rule empty_order)
  products ← gets (λ s. s.products)
  snapshots ← check (snapshot_items ctx.restaurant_id round.order_number items products)
  existing ← gets (linked_order ctx.restaurant_id x)
  order_id ← place_round env ctx x existing snapshots
  finish_round env ctx session_id round order_id (sum_of line_total items)
  pure order_id

-- `meanwhile` is what other requests write between the read of the session and the transaction.
unfoldable pub confirm_session : (Db → Db) → Env → TenantContext → ℕ → Action SessionView
unfolding require_session confirm_round transaction public_session
confirm_session meanwhile env ctx session_id = do
  x ← require_session ctx.restaurant_id session_id
  throw_if (not (is_open x.status)) (business_rule session_closed)
  modify meanwhile
  transaction (confirm_round env ctx session_id x)
  public_session ctx.restaurant_id session_id
