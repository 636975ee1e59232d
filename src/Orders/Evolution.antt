-- ===== src/Orders/Evolution.antt =====
-- What an order may become by the operations of the service, whatever their order.
use native.Mathlib.Nat.{le_trans, le_antisymm}
use restaurant_management_ba.Base.{ℕ, ◌≤◌, ◌≡◌, ◌∙◌, true, false, arith, Option}
use Prim.Native.String.{String}
use restaurant_management_ba.Model.{
  Order, OrderStatus, PaymentMethod, TenantContext, is_terminal, is_unpaid, is_paid,
}
use restaurant_management_ba.Env.{Env}
use restaurant_management_ba.Orders.Append.{add_subtotal}
use restaurant_management_ba.Orders.Changes.{
  is_version, is_payable, set_order_status, set_paid, set_refunded,
}
use restaurant_management_ba.Orders.Graph.{Change, rank, pay_rank, rank-Change, ended-Change}

-- What stays, what only grows, and what a version number stands for.
pub record Evolves (o p : Order) : Type 0 where
  pub same_id : p.id ≡ o.id
  pub same_restaurant : p.restaurant_id ≡ o.restaurant_id
  pub same_branch : p.branch_id ≡ o.branch_id
  pub same_number : p.order_number ≡ o.order_number
  pub same_date : p.order_date ≡ o.order_date
  pub same_source : p.source ≡ o.source
  pub same_type : p.type ≡ o.type
  pub same_table : p.table_id ≡ o.table_id
  pub same_coupon : p.coupon_id ≡ o.coupon_id
  pub same_discount : p.discount_amount ≡ o.discount_amount
  pub version_le : o.version ≤ p.version
  pub unchanged : o.version ≡ p.version → o ≡ p
  pub rank_le : rank o.status ≤ rank p.status
  pub ended : is_terminal o.status ≡ true → p.status ≡ o.status
  pub pay_le : pay_rank o.payment_status ≤ pay_rank p.payment_status
  pub subtotal_le : o.subtotal ≤ p.subtotal
  pub settled : is_unpaid o.payment_status ≡ false → p.total ≡ o.total

pub Evolves-refl : (o : Order) → Evolves o o
Evolves-refl o = ground arith

not_unpaid :
    (o p : Order)
    → is_unpaid o.payment_status ≡ false
    → pay_rank o.payment_status ≤ pay_rank p.payment_status
    → is_unpaid p.payment_status ≡ false
not_unpaid o p e h = ground arith

pub Evolves-trans : (o p q : Order) → Evolves o p → Evolves p q → Evolves o q
Evolves-trans o p q h k = record {
  same_id = k.same_id ∙ h.same_id;
  same_restaurant = k.same_restaurant ∙ h.same_restaurant;
  same_branch = k.same_branch ∙ h.same_branch;
  same_number = k.same_number ∙ h.same_number;
  same_date = k.same_date ∙ h.same_date;
  same_source = k.same_source ∙ h.same_source;
  same_type = k.same_type ∙ h.same_type;
  same_table = k.same_table ∙ h.same_table;
  same_coupon = k.same_coupon ∙ h.same_coupon;
  same_discount = k.same_discount ∙ h.same_discount;
  version_le = le_trans h.version_le k.version_le;
  unchanged = λ e.
      h.unchanged (le_antisymm h.version_le (rw e k.version_le))
      ∙ k.unchanged (le_antisymm k.version_le (rw (← e) h.version_le));
  rank_le = le_trans h.rank_le k.rank_le;
  ended = λ e. k.ended (rw (h.ended e) e) ∙ h.ended e;
  pay_le = le_trans h.pay_le k.pay_le;
  subtotal_le = le_trans h.subtotal_le k.subtotal_le;
  settled = λ e. k.settled (not_unpaid o p e h.pay_le) ∙ h.settled e;
}

module _ (ctx : TenantContext) (b id expected : ℕ) where
  -- A change of status that the service accepts, or a cancellation of an order that has not ended.
  pub set_order_status-Evolves :
      (new : OrderStatus) (reason : Option String) (o : Order)
      → Change o.type o.status new
      → is_version ctx.restaurant_id b id expected o ≡ true
      → Evolves o (set_order_status new expected reason o)
  set_order_status-Evolves new reason o h v =
      ground (arith, rank-Change o.type o.status new h, ended-Change o.type o.status new h)

  pub set_paid-Evolves :
      (env : Env) (method : PaymentMethod) (o : Order)
      → is_payable ctx.restaurant_id b id expected o ≡ true
      → Evolves o (set_paid env ctx method expected o)
  set_paid-Evolves env method o v = ground arith

  pub set_refunded-Evolves :
      (env : Env) (reason : String) (o : Order)
      → is_paid o.payment_status ≡ true
      → is_version ctx.restaurant_id b id expected o ≡ true
      → Evolves o (set_refunded env ctx reason expected o)
  set_refunded-Evolves env reason o p v = ground arith

pub add_subtotal-Evolves :
    (o : Order) (added : ℕ) → is_unpaid o.payment_status ≡ true → Evolves o (add_subtotal o added o)
add_subtotal-Evolves o added h = ground arith
