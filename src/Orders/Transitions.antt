-- ===== src/Orders/Transitions.antt =====
-- validateStateTransition of src/modules/orders/order.service.js.
use restaurant_management_ba.Base.{Bool, true, false, if◌then◌else◌}
use restaurant_management_ba.Model.{OrderStatus, OrderType, same_status, is_terminal}
use restaurant_management_ba.Exec.{
  Result, ok, err, business_rule, terminal_state, invalid_transition,
}

-- `validMap[currentStatus].includes(newStatus)`
unfoldable pub allows : OrderType → OrderStatus → OrderStatus → Bool
allows type OrderStatus.pending OrderStatus.confirmed = true
allows type OrderStatus.confirmed OrderStatus.preparing = true
allows type OrderStatus.preparing OrderStatus.ready = true
allows OrderType.delivery OrderStatus.ready OrderStatus.out_for_delivery = true
allows OrderType.dine_in OrderStatus.ready OrderStatus.delivered = true
allows OrderType.pickup OrderStatus.ready OrderStatus.delivered = true
allows type OrderStatus.out_for_delivery OrderStatus.delivered = true
allows _ _ _ = false

unfoldable pub validate_transition : OrderStatus → OrderStatus → OrderType → Result (Unit {0})
unfolding allows
validate_transition current new type =
    if same_status current new
    then ok tt
    else if is_terminal current
    then err (business_rule (terminal_state current))
    else if allows type current new
    then ok tt
    else err (business_rule (invalid_transition current new type))
