-- ===== src/Orders/Find.antt =====
-- The reads of src/modules/orders/order.repository.js that the writes rest on, and the tenant checks
-- (requireBranch of branch.repository.js behind src/shared/utils/assert-branch.js, and getOrderById).
use Prim.Native.String.{String}
use text.Mathlib.Text.{◌==◌ as str_eq}
use restaurant_management_ba.Base.{ℕ, ◌+◌, Bool, not, ◌&&◌, Option, none, some, ◌==◌, leb, is_id}
use restaurant_management_ba.Model.{
  Db, Order, Branch, TenantContext, IdempotencyKey, is_active, HistoryEntry,
}
use restaurant_management_ba.Store.{find_first, find_max, find_many}
use restaurant_management_ba.Exec.{
  Action, or_throw, gets, ◌>>=◌, ◌>>◌, not_found, order_missing, branch_missing,
}
use restaurant_management_ba.Env.{Env}

-- `where: { id: orderId, branchId, restaurantId }`
abbrev pub is_order : ℕ → ℕ → ℕ → Order → Bool
is_order restaurant branch id o =
    o.id == id && o.branch_id == branch && o.restaurant_id == restaurant

-- `where: { restaurantId, branchId, tableId, status: { in: [...] } }`
abbrev pub holds_table : ℕ → ℕ → ℕ → Order → Bool
holds_table restaurant branch table o =
    o.restaurant_id == restaurant
    && o.branch_id == branch
    && is_id o.table_id table
    && is_active o.status

-- The same with `id: { not: orderId }`.
abbrev pub holds_table_besides : ℕ → ℕ → ℕ → ℕ → Order → Bool
holds_table_besides restaurant branch table id o =
    holds_table restaurant branch table o && not (o.id == id)

abbrev is_branch : ℕ → ℕ → Branch → Bool
is_branch restaurant id b = b.id == id && b.restaurant_id == restaurant

unfoldable pub require_branch : TenantContext → ℕ → Action Branch
require_branch ctx branch_id = do
  or_throw (← gets (λ s. find_first (is_branch ctx.restaurant_id branch_id) s.branches))
      (not_found branch_missing)

unfoldable pub find_order_by_id : TenantContext → ℕ → ℕ → Db → Option Order
find_order_by_id ctx branch_id order_id s =
    find_first (is_order ctx.restaurant_id branch_id order_id) s.orders

unfoldable pub get_order_by_id : TenantContext → ℕ → ℕ → Action Order
unfolding require_branch find_order_by_id
get_order_by_id ctx branch_id order_id = do
  require_branch ctx branch_id
  or_throw (← gets (find_order_by_id ctx branch_id order_id)) (not_found order_missing)

-- `where: { restaurantId, branchId, orderDate: dateKey }`
abbrev pub is_of_day : ℕ → ℕ → String → Order → Bool
is_of_day restaurant branch date o =
    o.restaurant_id == restaurant && o.branch_id == branch && str_eq o.order_date date

-- Order numbers start again every day.
unfoldable pub find_next_order_number : ℕ → ℕ → String → ℕ → Db → ℕ
find_next_order_number restaurant branch date start s =
    elim (find_max (is_of_day restaurant branch date) (λ o. o.order_number) s.orders) [
      | none ↦ start
      | some n ↦ n + 1
    ]

abbrev pub is_key : ℕ → String → IdempotencyKey → Bool
is_key restaurant key k = k.restaurant_id == restaurant && str_eq k.key key

-- `24 * 60 * 60 * 1000`
abbrev pub day_ms : ℕ
day_ms = 86_400_000

-- `createdAt: { gte: now - 24h }`, with the addition on the other side.
unfoldable pub find_idempotency_key : Env → ℕ → String → Db → Option IdempotencyKey
find_idempotency_key env restaurant key s =
    find_first (λ k. is_key restaurant key k && leb env.now (k.created_at + day_ms)) s.keys

-- findOrderHistory, behind the service's branch check; `null` for an unknown order.
unfoldable pub get_order_history :
    TenantContext → ℕ → ℕ → Action (Option (mathlib.Core.List.List HistoryEntry))
unfolding require_branch find_order_by_id
get_order_history ctx branch_id order_id = do
  require_branch ctx branch_id
  gets (λ s. elim (find_order_by_id ctx branch_id order_id s) [
    | none ↦ none
    | some o ↦
        some (
          find_many (λ h. h.restaurant_id == ctx.restaurant_id && h.order_id == order_id) s.history)
  ])
