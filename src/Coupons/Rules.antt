-- ===== src/Coupons/Rules.antt =====
-- validateCouponRules of src/modules/coupons/coupon.service.js. Amounts are in cents; the discount is
-- computed in ten-thousandths of a cent, in which a percentage with two decimals is exact, and is then
-- rounded as `toFixed(2)` does.
use restaurant_management_ba.Base.{
  ℕ, ◌+◌, ◌*◌, min, Bool, false, not, ◌&&◌, ◌||◌, Option, none, some, List, [], ◌∷◌, ltb, leb, ◌==◌,
  if◌then◌else◌, is_some,
}
use restaurant_management_ba.Model.{Coupon, CouponType}
use restaurant_management_ba.Exec.{
  Result, ok, err, not_found, business_rule, coupon_missing, coupon_inactive, coupon_early,
  coupon_expired, coupon_used_up, coupon_not_applicable, coupon_minimum,
}
use restaurant_management_ba.Env.{Env}

-- An item as a coupon sees it.
pub record CouponItem : Type 0 where
  pub product_id : ℕ
  pub subtotal : ℕ

pub record Discount : Type 0 where
  pub discount_amount : ℕ
  pub eligible_subtotal : ℕ

-- `applicable.has(id)`
abbrev pub has_id : List ℕ → ℕ → Bool
has_id [] i = false
has_id (x ∷ xs) i = x == i || has_id xs i

-- The `reduce` over the items that the coupon names.
unfoldable pub applicable_subtotal : List ℕ → List CouponItem → ℕ → ℕ
applicable_subtotal ids [] sum = sum
applicable_subtotal ids (i ∷ is) sum =
    applicable_subtotal ids is (if has_id ids i.product_id then sum + i.subtotal else sum)

unfoldable pub eligible_subtotal : Coupon → ℕ → List CouponItem → ℕ
eligible_subtotal c order_subtotal items = elim c.applicable_product_ids [
  | [] ↦ order_subtotal
  | i ∷ is ↦ applicable_subtotal (i ∷ is) items 0
]

-- `discount > maxDiscount` caps a percentage.
unfoldable pub cap_discount : Option ℕ → ℕ → ℕ
cap_discount none d = d
cap_discount (some m) d = if ltb (10000 * m) d then 10000 * m else d

unfoldable pub raw_discount : Coupon → ℕ → ℕ
unfolding cap_discount
raw_discount c eligible = elim c.type [
  | CouponType.percentage ↦ cap_discount c.max_discount (eligible * c.value)
  | CouponType.fixed ↦ 10000 * min c.value eligible
]

abbrev pub is_early : Option ℕ → ℕ → Bool
is_early none now = false
is_early (some t) now = ltb now t

abbrev pub is_expired : Option ℕ → ℕ → Bool
is_expired none now = false
is_expired (some t) now = ltb t now

abbrev pub is_used_up : Option ℕ → ℕ → Bool
is_used_up none used = false
is_used_up (some limit) used = leb limit used

-- The checks on a coupon that was found, in the order of the code.
unfoldable pub validate_coupon : Env → Coupon → ℕ → List CouponItem → Result Discount
validate_coupon env c order_subtotal items =
    let eligible = eligible_subtotal c order_subtotal items in
    if is_some c.deleted_at
    then err (not_found coupon_missing)
    else if not c.is_enabled
    then err (business_rule coupon_inactive)
    else if is_early c.starts_at env.now
    then err (business_rule coupon_early)
    else if is_expired c.expires_at env.now
    then err (business_rule coupon_expired)
    else if is_used_up c.usage_limit c.times_used
    then err (business_rule coupon_used_up)
    else if leb eligible 0
    then err (business_rule coupon_not_applicable)
    else if ltb 0 c.min_subtotal && ltb eligible c.min_subtotal
    then err (business_rule (coupon_minimum c.min_subtotal))
    else ok (record {
      discount_amount = env.to_fixed (raw_discount c eligible);
      eligible_subtotal = eligible;
    })

unfoldable pub validate_coupon_rules : Env → Option Coupon → ℕ → List CouponItem → Result Discount
unfolding validate_coupon
validate_coupon_rules env none order_subtotal items = err (not_found coupon_missing)
validate_coupon_rules env (some c) order_subtotal items = validate_coupon env c order_subtotal items
