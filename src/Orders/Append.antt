-- ===== src/Orders/Append.antt =====
-- appendItemsToOrder of src/modules/orders/order.repository.js, as it runs in a caller's transaction.
use restaurant_management_ba.Base.{
  ℕ, ◌+◌, ◌-◌, Bool, not, ◌&&◌, some, List, [], ◌∷◌, ◌++◌, ◌==◌, max, if◌then◌else◌, sum_of,
}
use restaurant_management_ba.Model.{
  Order, ItemSnapshot, TenantContext, HistoryEntry, round_added, is_active, is_unpaid,
}
use restaurant_management_ba.Store.{find_first, update_many, count}
use restaurant_management_ba.Exec.{
  Action, pure, or_throw, throw_if, gets, modify, ◌>>=◌, ◌>>◌, business_rule, not_found, conflict,
  order_missing, append_to_paid, not_appendable, modified_elsewhere,
}
use restaurant_management_ba.Orders.Find.{is_order}
use restaurant_management_ba.Orders.Create.{items_of}

-- The `where` of the update: the row that was read, unchanged since.
abbrev pub is_unchanged : ℕ → ℕ → Order → Order → Bool
is_unchanged restaurant branch o x =
    is_order restaurant branch o.id x
    && x.version == o.version
    && is_unpaid x.payment_status
    && is_active x.status

-- Its `data`.
abbrev pub add_subtotal : Order → ℕ → Order → Order
add_subtotal o added x = record x {
  subtotal = o.subtotal + added;
  total = o.subtotal + added - o.discount_amount;
  version = o.version + 1;
}

-- `Math.max(...itemsPayload.map((i) => Number(i.round || 1)))`
abbrev max_round : List ItemSnapshot → ℕ
max_round [] = 0
max_round (i ∷ is) = max (if i.round == 0 then 1 else i.round) (max_round is)

abbrev append_entry : TenantContext → Order → ℕ → HistoryEntry
append_entry ctx o round = record {
  restaurant_id = ctx.restaurant_id;
  order_id = o.id;
  from_status = some o.status;
  to_status = o.status;
  changed_by = ctx.employee_id;
  reason = round_added round;
}

unfoldable pub append_items : TenantContext → ℕ → ℕ → List ItemSnapshot → Action ℕ
append_items ctx branch order_id items = do
  found ← gets (λ s. find_first (is_order ctx.restaurant_id branch order_id) s.orders)
  o ← or_throw found (not_found order_missing)
  throw_if (not (is_unpaid o.payment_status)) (business_rule append_to_paid)
  throw_if (not (is_active o.status)) (business_rule (not_appendable o.status))
  modify (λ s. record s { items = s.items ++ items_of ctx.restaurant_id o.id items })
  updated ← gets (λ s. count (is_unchanged ctx.restaurant_id branch o) s.orders)
  modify (λ s. record s {
    orders =
        update_many (is_unchanged ctx.restaurant_id branch o)
          (add_subtotal o (sum_of (λ i. i.subtotal) items)) s.orders;
  })
  throw_if (updated == 0) (conflict modified_elsewhere)
  modify (λ s. record s { history = s.history ++ (append_entry ctx o (max_round items) ∷ []) })
  pure o.id
