-- ===== src/Coupons/Apply.antt =====
-- applyCouponForOrderInTransaction of src/modules/coupons/coupon.service.js.
use restaurant_management_ba.Base.{ℕ, ◌+◌, Bool, ◌&&◌, List, ◌==◌}
use restaurant_management_ba.Model.{Coupon, TenantContext}
use restaurant_management_ba.Store.{find_first, update_many}
use restaurant_management_ba.Exec.{
  Action, pure, or_throw, check, gets, modify, ◌>>=◌, ◌>>◌, not_found, coupon_missing,
}
use restaurant_management_ba.Env.{Env}
use restaurant_management_ba.Coupons.Rules.{CouponItem, validate_coupon_rules}

-- `where: { id, restaurantId }`
abbrev pub is_coupon : ℕ → ℕ → Coupon → Bool
is_coupon restaurant id c = c.id == id && c.restaurant_id == restaurant

-- `timesUsed: { increment: 1 }`
abbrev pub use_once : Coupon → Coupon
use_once c = record c { times_used = c.times_used + 1 }

-- The row is locked by `SELECT ... FOR UPDATE` before it is read, so the count that is checked is the
-- one that is incremented.
unfoldable pub apply_coupon : Env → TenantContext → ℕ → ℕ → List CouponItem → Action ℕ
apply_coupon env ctx coupon_id order_subtotal items = do
  locked ← gets (λ s. find_first (is_coupon ctx.restaurant_id coupon_id) s.coupons)
  or_throw locked (not_found coupon_missing)
  coupon ← gets (λ s. find_first (is_coupon ctx.restaurant_id coupon_id) s.coupons)
  d ← check (validate_coupon_rules env coupon order_subtotal items)
  modify (λ s. record s {
    coupons = update_many (is_coupon ctx.restaurant_id coupon_id) use_once s.coupons;
  })
  pure d.discount_amount
