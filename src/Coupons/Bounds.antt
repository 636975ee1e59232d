-- ===== src/Coupons/Bounds.antt =====
-- What validateCouponRules accepts, and how large the discount is.
use restaurant_management_ba.Base.{
  ℕ, ◌+◌, ◌≤◌, ◌<◌, ◌≡◌, refl, true, Option, none, some, List, [], ◌∷◌, arith, Bool-cases, inl, inr,
  sum_of,
}
use restaurant_management_ba.Model.{Coupon, CouponType}
use restaurant_management_ba.Env.{Env}
use restaurant_management_ba.Coupons.Rules.{
  CouponItem, has_id, applicable_subtotal, eligible_subtotal,
}

-- A limit that is set.
abbrev pub Within : (ℕ → Type 0) → Option ℕ → Type 0
Within P none = Unit
Within P (some n) = P n

-- The coupon can be used now, on this many cents.
pub record IsUsable (now eligible : ℕ) (c : Coupon) : Type 0 where
  pub present : c.deleted_at ≡ none
  pub enabled : c.is_enabled ≡ true
  pub started : Within (λ t. t ≤ now) c.starts_at
  pub running : Within (λ t. now ≤ t) c.expires_at
  pub unused : Within (λ limit. c.times_used < limit) c.usage_limit
  pub applies : 0 < eligible
  pub enough : c.min_subtotal ≤ eligible

abbrev pub subtotals : List CouponItem → ℕ
subtotals items = sum_of (λ i. i.subtotal) items

applicable_subtotal_le :
    (ids : List ℕ) (items : List CouponItem) (sum : ℕ)
    → applicable_subtotal ids items sum ≤ sum + subtotals items
unfolding applicable_subtotal
applicable_subtotal_le ids [] sum = omega arith
applicable_subtotal_le ids (i ∷ is) sum = elim (Bool-cases (has_id ids i.product_id)) [
  | inl h ↦ grind (arith, applicable_subtotal_le ids is (sum + i.subtotal))
  | inr h ↦ grind (arith, applicable_subtotal_le ids is sum)
]

pub eligible_le :
    (c : Coupon) (items : List CouponItem)
    → eligible_subtotal c (subtotals items) items ≤ subtotals items
unfolding eligible_subtotal
eligible_le c items = go c.applicable_product_ids refl
  where
    go :
        (ids : List ℕ)
        → c.applicable_product_ids ≡ ids
        → eligible_subtotal c (subtotals items) items ≤ subtotals items
    go [] e = rw e (omega arith)
    go (i ∷ is) e = rw e (omega (arith, applicable_subtotal_le (i ∷ is) items 0))

-- A percentage is at most 100.00.
abbrev pub IsValued : Coupon → Type 0
IsValued c = c.type ≡ CouponType.percentage → c.value ≤ 10000
