-- ===== src/Sessions/Find.antt =====
-- What the operations of src/modules/table-sessions read, and publicSession of table-session.service.js.
use restaurant_management_ba.Base.{
  ℕ, ◌+◌, ◌*◌, Bool, not, ◌&&◌, Option, none, some, List, ◌==◌, is_id, is_some, sum_of,
  if◌then◌else◌,
}
use restaurant_management_ba.Model.{
  Db, RestaurantTable, TableSession, SessionStatus, SessionMember, SessionItem, SessionOrder,
  WaiterCall, CallStatus, is_open, is_awaiting, is_confirmed, TenantContext,
}
use restaurant_management_ba.Store.{find_first, find_many}
use restaurant_management_ba.Exec.{
  Action, gets, or_throw, pure, ◌>>=◌, not_found, session_missing, table_missing,
}

-- `where: { id: sessionId, restaurantId }`
abbrev pub is_session : ℕ → ℕ → TableSession → Bool
is_session restaurant id x = x.id == id && x.restaurant_id == restaurant

-- `where: { restaurantId, tableId, status: { in: [...] } }`
abbrev pub is_open_at : ℕ → ℕ → TableSession → Bool
is_open_at restaurant table x =
    x.restaurant_id == restaurant && x.table_id == table && is_open x.status

unfoldable pub find_table_by_qr_token : ℕ → ℕ → Db → Option RestaurantTable
find_table_by_qr_token token restaurant s =
    find_first
      (λ t. t.qr_token == token && t.restaurant_id == restaurant && not (is_some t.deleted_at))
      s.tables

unfoldable pub find_active_session_by_table : ℕ → ℕ → Db → Option TableSession
find_active_session_by_table restaurant table s =
    find_first (is_open_at restaurant table) s.sessions

unfoldable pub find_session_by_id : ℕ → ℕ → Db → Option TableSession
find_session_by_id restaurant id s = find_first (is_session restaurant id) s.sessions

-- `session.items`
abbrev pub items_of_session : ℕ → Db → List SessionItem
items_of_session id s = find_many (λ i. i.session_id == id) s.session_items

-- `session.items.filter((i) => !i.sessionOrderId)`
abbrev pub is_current : ℕ → SessionItem → Bool
is_current id i = i.session_id == id && not (is_some i.session_order_id)

abbrev pub current_items : ℕ → Db → List SessionItem
current_items id s = find_many (is_current id) s.session_items

-- `order.items`
abbrev pub is_linked : ℕ → SessionItem → Bool
is_linked order i = is_id i.session_order_id order

abbrev pub line_total : SessionItem → ℕ
line_total i = i.unit_price * i.quantity

-- `where: { sessionId, status: "AWAITING_CONFIRMATION" }`
abbrev pub is_pending : ℕ → SessionOrder → Bool
is_pending session o = o.session_id == session && is_awaiting o.status

abbrev pub is_live : CallStatus → Bool
is_live CallStatus.dismissed = Bool.false
is_live _ = Bool.true

-- `where: { sessionId, restaurantId, status: { in: ["PENDING", "ACCEPTED"] } }`
unfoldable pub find_active_waiter_call : ℕ → ℕ → Db → Option WaiterCall
find_active_waiter_call session restaurant s =
    find_first (λ c. c.session_id == session && c.restaurant_id == restaurant && is_live c.status)
      s.calls

unfoldable pub require_session : ℕ → ℕ → Action TableSession
unfolding find_session_by_id
require_session restaurant id = do
  or_throw (← gets (find_session_by_id restaurant id)) (not_found session_missing)

-- What publicSession returns, without the labels.
pub record SessionView : Type 0 where
  pub id : ℕ
  pub status : SessionStatus
  pub table_id : ℕ
  pub members : List SessionMember
  pub items : List SessionItem
  pub total : ℕ
  pub grand_total : ℕ
  pub orders : List SessionOrder
  pub confirmed_order_id : Option ℕ
  pub waiter_call : Option WaiterCall

abbrev pub session_orders_of : ℕ → Db → List SessionOrder
session_orders_of id s = find_many (λ o. o.session_id == id) s.session_orders

abbrev confirmed_total : SessionOrder → ℕ
confirmed_total o = if is_confirmed o.status then o.total else 0

unfoldable pub view_of : TableSession → Db → SessionView
unfolding find_active_waiter_call
view_of x s = record {
  id = x.id;
  status = x.status;
  table_id = x.table_id;
  members = find_many (λ m. m.session_id == x.id) s.members;
  items = current_items x.id s;
  total = sum_of line_total (current_items x.id s);
  grand_total =
      sum_of line_total (current_items x.id s) + sum_of confirmed_total (session_orders_of x.id s);
  orders = session_orders_of x.id s;
  confirmed_order_id = x.confirmed_order_id;
  waiter_call = find_first (λ c. c.session_id == x.id && is_live c.status) s.calls;
}

unfoldable pub public_session : ℕ → ℕ → Action SessionView
unfolding require_session view_of
public_session restaurant id = do x ← require_session restaurant id; gets (view_of x)

-- getActiveSessionForTable
unfoldable pub get_active_session_for_table : TenantContext → ℕ → Action (Option SessionView)
unfolding find_active_session_by_table public_session
get_active_session_for_table ctx table_id = do
  found ← gets (λ s.
      find_first
        (λ t.
          t.id == table_id && t.restaurant_id == ctx.restaurant_id && not (is_some t.deleted_at))
        s.tables)
  table ← or_throw found (not_found table_missing)
  active ← gets (find_active_session_by_table ctx.restaurant_id table.id)
  elim active [
    | none ↦ pure none
    | some x ↦ public_session ctx.restaurant_id x.id >>= λ v. pure (some v)
  ]
