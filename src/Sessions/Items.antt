-- ===== src/Sessions/Items.antt =====
-- addItem, updateItem, removeItem and assertItemEditable of
-- src/modules/table-sessions/table-session.service.js.
use Prim.Native.String.{String}
use restaurant_management_ba.Base.{
  ℕ, Bool, not, ◌&&◌, Option, none, some, [], ◌∷◌, ◌++◌, ◌==◌, is_some, filled,
}
use restaurant_management_ba.Model.{SessionItem, Product, is_open, is_ordering, is_awaiting}
use restaurant_management_ba.Store.{find_first, find_many, update_many}
use restaurant_management_ba.Exec.{
  Action, gets, modify, or_throw, throw_if, pure, ◌>>=◌, ◌>>◌, not_found, business_rule,
  session_not_open, session_closed, product_unavailable, item_missing, item_confirmed,
}
use restaurant_management_ba.Env.{Env}
use restaurant_management_ba.Sessions.Find.{
  items_of_session, session_orders_of, require_session, SessionView, public_session,
}

-- `where: { restaurantId, isAvailable: true, status: "ACTIVE", deletedAt: null }`
abbrev pub is_sold : ℕ → Product → Bool
is_sold restaurant p =
    p.restaurant_id == restaurant && p.is_available && p.is_enabled && not (is_some p.deleted_at)

-- `value || default`, where the default is the Arabic for a guest
abbrev pub or_guest : Option String → String
or_guest name = elim (filled name) [ none ↦ "\u{639}\u{645}\u{64a}\u{644}" | some text ↦ text ]

unfoldable pub add_item : Env → ℕ → ℕ → ℕ → ℕ → ℕ → Action SessionView
unfolding require_session public_session
add_item env restaurant session_id member_id product_id quantity = do
  x ← require_session restaurant session_id
  throw_if (not (is_ordering x.status)) (business_rule session_not_open)
  member ← gets (λ s. find_first (λ m. m.id == member_id && m.session_id == session_id) s.members)
  found ← gets (λ s. find_first (λ p. p.id == product_id && is_sold restaurant p) s.products)
  product ← or_throw found (not_found product_unavailable)
  id ← gets env.new_id
  modify (λ s. record s {
    session_items =
        s.session_items
        ++ (record {
          id = id;
          session_id = session_id;
          session_order_id = none;
          product_id = product_id;
          product_name = product.name;
          unit_price = product.price;
          quantity = quantity;
          added_by_name = some (or_guest (elim member [ none ↦ none | some m ↦ some m.name ]));
        }
            ∷ []);
  })
  public_session restaurant session_id

-- An item of a round that waits for the staff can still be changed, one of a confirmed round cannot.
unfoldable pub assert_item_editable : ℕ → SessionItem → Action (Unit {0})
assert_item_editable session_id item s = elim item.session_order_id [
  | none ↦ pure tt s
  | some order ↦ elim (find_first (λ o. o.id == order) (session_orders_of session_id s)) [
    | none ↦ pure tt s
    | some o ↦ throw_if (not (is_awaiting o.status)) (business_rule item_confirmed) s
  ]
]

-- The checks that updateItem and removeItem make alike.
unfoldable pub editable_item : ℕ → ℕ → ℕ → Action (Unit {0})
unfolding require_session assert_item_editable
editable_item restaurant session_id item_id = do
  x ← require_session restaurant session_id
  throw_if (not (is_open x.status)) (business_rule session_closed)
  found ← gets (λ s. find_first (λ i. i.id == item_id) (items_of_session session_id s))
  item ← or_throw found (not_found item_missing)
  assert_item_editable session_id item

-- `where: { id: itemId, sessionId }`
abbrev pub is_item : ℕ → ℕ → SessionItem → Bool
is_item session_id id i = i.id == id && i.session_id == session_id

unfoldable pub update_item : ℕ → ℕ → ℕ → ℕ → Action SessionView
unfolding editable_item public_session
update_item restaurant session_id item_id quantity = do
  editable_item restaurant session_id item_id
  modify (λ s. record s {
    session_items =
        update_many (is_item session_id item_id) (λ i. record i { quantity = quantity })
          s.session_items;
  })
  public_session restaurant session_id

unfoldable pub remove_item : ℕ → ℕ → ℕ → Action SessionView
unfolding editable_item public_session
remove_item restaurant session_id item_id = do
  editable_item restaurant session_id item_id
  modify (λ s. record s {
    session_items = find_many (λ i. not (is_item session_id item_id i)) s.session_items;
  })
  public_session restaurant session_id
