-- ===== src/Coupons/Examples.antt =====
-- The theorems on coupons at a concrete coupon.
use restaurant_management_ba.Base.{List, [], ◌∷◌}
use restaurant_management_ba.Model.{Coupon}
use restaurant_management_ba.Orders.Scenario.{spring}
use restaurant_management_ba.Coupons.Rules.{CouponItem, Discount, eligible_subtotal}

abbrev two_items : List CouponItem
two_items =
    record { product_id = 8; subtotal = 900 } ∷ record { product_id = 9; subtotal = 700 } ∷ []

-- Fifteen percent of the second item alone.
abbrev drinks : Coupon
drinks = record spring { applicable_product_ids = 9 ∷ [] }

abbrev saved : Discount
saved = record { discount_amount = 105; eligible_subtotal = 700 }
