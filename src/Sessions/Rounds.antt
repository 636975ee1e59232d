-- ===== src/Sessions/Rounds.antt =====
-- submitDraft, rejectPendingOrder and closeSession of src/modules/table-sessions/table-session.service.js:
-- each is a sequence of writes, not a transaction.
use restaurant_management_ba.Base.{
  ℕ, ◌+◌, Bool, not, ◌&&◌, Option, none, some, List, [], ◌∷◌, ◌++◌, ◌==◌, sum_of,
}
use restaurant_management_ba.Model.{
  Db, Order, TableStatus, TableSession, SessionStatus, SessionItem, SessionOrder,
  SessionOrderStatus, TenantContext, is_open, is_ordering, is_unpaid, is_cancelled,
}
use restaurant_management_ba.Store.{find_first, find_many, find_max, update_many}
use restaurant_management_ba.Exec.{
  Action, gets, modify, or_throw, throw_if, ◌>>=◌, ◌>>◌, business_rule, not_in_open_state,
  cart_empty, session_closed, nothing_awaiting, order_unpaid,
}
use restaurant_management_ba.Env.{Env}
use restaurant_management_ba.Sessions.Find.{
  is_session, is_current, is_linked, is_pending, line_total, current_items, require_session,
  SessionView, public_session,
}
use restaurant_management_ba.Sessions.Pin.{set_table_status}

-- `items.length === 0`
abbrev pub is_empty : List SessionItem → Bool
is_empty [] = Bool.true
is_empty (i ∷ is) = Bool.false

-- nextOrderNumber
unfoldable pub next_order_number : ℕ → Db → ℕ
next_order_number session s =
    elim (find_max (λ o. o.session_id == session) (λ o. o.order_number) s.session_orders) [
      | none ↦ 1
      | some n ↦ n + 1
    ]

abbrev pub set_session : SessionStatus → ℕ → TableSession → TableSession
set_session st now x = record x {
  status = st;
  closed_at = elim st [ SessionStatus.closed ↦ some now | _ ↦ x.closed_at ];
}

-- setSessionStatus
unfoldable pub set_session_status : Env → ℕ → ℕ → SessionStatus → Action (Unit {0})
set_session_status env restaurant id st = modify (λ s. record s {
  sessions = update_many (is_session restaurant id) (set_session st env.now) s.sessions;
})

abbrev pub link : ℕ → SessionItem → SessionItem
link order i = record i { session_order_id = some order }

abbrev pub unlink : SessionItem → SessionItem
unlink i = record i { session_order_id = none }

-- createOrder and linkItemsToOrder
unfoldable pub create_round : ℕ → ℕ → ℕ → ℕ → Action (Unit {0})
create_round id session number total = do
  modify (λ s. record s {
    session_orders =
        s.session_orders
        ++ (record {
          id = id;
          session_id = session;
          order_number = number;
          status = SessionOrderStatus.awaiting_confirmation;
          total = total;
          order_id = none;
          confirmed_at = none;
        }
            ∷ []);
  })
  modify
      (λ s. record s { session_items = update_many (is_current session) (link id) s.session_items })

unfoldable pub submit_draft : Env → ℕ → ℕ → Action SessionView
unfolding require_session next_order_number create_round set_session_status public_session
submit_draft env restaurant session_id = do
  x ← require_session restaurant session_id
  throw_if (not (is_ordering x.status)) (business_rule not_in_open_state)
  current ← gets (current_items session_id)
  throw_if (is_empty current) (business_rule cart_empty)
  number ← gets (next_order_number session_id)
  id ← gets env.new_id
  create_round id session_id number (sum_of line_total current)
  set_session_status env restaurant session_id SessionStatus.awaiting_confirmation
  public_session restaurant session_id

-- `where: { sessionId, sessionOrderId: orderId }`
abbrev pub is_of_round : ℕ → ℕ → SessionItem → Bool
is_of_round session order i = i.session_id == session && is_linked order i

abbrev pub is_round : ℕ → ℕ → SessionOrder → Bool
is_round session id o = o.id == id && o.session_id == session

-- unlinkOrderItems, and the deletion of the round
unfoldable pub remove_round : ℕ → ℕ → Action (Unit {0})
remove_round session id = do
  modify (λ s. record s {
    session_items = update_many (is_of_round session id) unlink s.session_items;
  })
  modify (λ s. record s {
    session_orders = find_many (λ o. not (is_round session id o)) s.session_orders;
  })

unfoldable pub reject_pending_order : Env → TenantContext → ℕ → Action SessionView
unfolding require_session remove_round set_session_status public_session
reject_pending_order env ctx session_id = do
  x ← require_session ctx.restaurant_id session_id
  throw_if (not (is_open x.status)) (business_rule session_closed)
  found ← gets (λ s. find_first (is_pending session_id) s.session_orders)
  pending ← or_throw found (business_rule nothing_awaiting)
  remove_round session_id pending.id
  set_session_status env ctx.restaurant_id session_id SessionStatus.active
  public_session ctx.restaurant_id session_id

-- The order that a session has been confirmed into, if it has and the order is there.
abbrev pub linked_order : ℕ → TableSession → Db → Option Order
linked_order restaurant x s = elim x.confirmed_order_id [
  | none ↦ none
  | some id ↦ find_first (λ o. o.id == id && o.restaurant_id == restaurant) s.orders
]

abbrev pub is_owing : Option Order → Bool
is_owing none = Bool.false
is_owing (some o) = is_unpaid o.payment_status && not (is_cancelled o.status)

-- cancelPendingOrders
unfoldable pub cancel_pending_orders : ℕ → Action (Unit {0})
cancel_pending_orders session = modify (λ s. record s {
  session_orders =
      update_many (is_pending session) (λ o. record o { status = SessionOrderStatus.cancelled })
        s.session_orders;
})

unfoldable pub close_session : Env → TenantContext → ℕ → Action SessionView
unfolding require_session cancel_pending_orders set_session_status set_table_status public_session
close_session env ctx session_id = do
  x ← require_session ctx.restaurant_id session_id
  throw_if (not (is_open x.status)) (business_rule session_closed)
  order ← gets (linked_order ctx.restaurant_id x)
  throw_if (is_owing order) (business_rule order_unpaid)
  cancel_pending_orders session_id
  set_session_status env ctx.restaurant_id session_id SessionStatus.closed
  set_table_status x.table_id ctx.restaurant_id TableStatus.available
  public_session ctx.restaurant_id session_id
