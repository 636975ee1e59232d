-- ===== src/Orders/Scenario.antt =====
-- Concrete data for the orders: a restaurant with one branch, table, coupon and order.
use restaurant_management_ba.Base.{
  ℕ, suc, ◌+◌, ◌/◌, ◌<◌, ◌≡◌, refl, true, none, some, List, [], ◌∷◌, arith, sum_of, ◌==◌,
}
use restaurant_management_ba.Model.{
  Db, Order, OrderStatus, OrderSource, OrderType, PaymentStatus, PaymentMethod, ItemSnapshot,
  TableStatus, RestaurantTable, Coupon, CouponType, TenantContext,
}
use restaurant_management_ba.Store.{count}
use restaurant_management_ba.Env.{Env, IsEnv}
use restaurant_management_ba.Orders.Create.{OrderPayload}
use restaurant_management_ba.Orders.Sound.{IsSound}
use restaurant_management_ba.Orders.Creation.{IsPayload}

-- An environment: identifiers above all others in use, and rounding with ties upwards.
abbrev pub plain_env : Env
plain_env = record {
  now = 1_000;
  format_in = λ zone. some "2024-05-01";
  format_local = "2024-05-01";
  new_id = λ s. suc (sum_of (λ o. o.id) s.orders);
  to_fixed = λ x. (x + 5000) / 10_000;
  parts = 10_000;
  to_column = λ x. (x + 5000) / 10_000;
}

absent_id :
    (n : ℕ) (orders : List Order)
    → sum_of (λ o. o.id) orders < n
    → count (λ (o : Order). o.id == n) orders ≡ 0
unfolding count
absent_id n [] h = refl
absent_id n (o ∷ os) h = ground (arith, absent_id n os (omega arith))

pub plain_env-IsEnv : IsEnv plain_env
plain_env-IsEnv = record {
  fresh = λ s. absent_id _ s.orders (omega arith);
  round_le = λ x. omega arith;
  le_round = λ x. omega arith;
  stored = λ n. omega arith;
}

abbrev pub waiter : TenantContext
waiter = record { restaurant_id = 1; employee_id = some 4 }

abbrev pub soup : ItemSnapshot
soup = record {
  product_id = 8;
  product_name = "soup";
  quantity = 2;
  unit_price = 450;
  subtotal = 900;
  notes = none;
  selected_modifiers = none;
  round = 1;
}

abbrev pub first_order : Order
first_order = record {
  id = 5;
  order_number = 200;
  order_date = "2024-05-01";
  restaurant_id = 1;
  branch_id = 2;
  source = OrderSource.cashier;
  type = OrderType.dine_in;
  status = OrderStatus.confirmed;
  payment_status = PaymentStatus.pending;
  payment_method = none;
  customer_id = none;
  table_id = some 3;
  coupon_id = none;
  subtotal = 900;
  discount_amount = 0;
  total = 900;
  notes = none;
  address = none;
  cancel_reason = none;
  paid_at = none;
  paid_by = none;
  refunded_at = none;
  refund_reason = none;
  refunded_by = none;
  version = 1;
}

abbrev pub spring : Coupon
spring = record {
  id = 6;
  restaurant_id = 1;
  code = "SPRING";
  type = CouponType.percentage;
  value = 1500;
  min_subtotal = 500;
  max_discount = some 200;
  applicable_product_ids = [];
  usage_limit = some 1;
  times_used = 0;
  starts_at = none;
  expires_at = some 2_000;
  is_enabled = true;
  deleted_at = none;
}

abbrev pub our_table : RestaurantTable
our_table = record {
  id = 3;
  restaurant_id = 1;
  branch_id = 2;
  label = "T3";
  capacity = 4;
  status = TableStatus.occupied;
  qr_token = 77;
  deleted_at = none;
}

abbrev pub lunch : Db
lunch = record {
  orders = first_order ∷ [];
  items = record { restaurant_id = 1; order_id = 5; item = soup } ∷ [];
  history = [];
  tables = our_table ∷ [];
  coupons = spring ∷ [];
  keys = [];
  branches = record { id = 2; restaurant_id = 1 } ∷ [];
  settings =
      record {
        branch_id = 2;
        restaurant_id = 1;
        daily_order_start_number = 0;
        timezone = "Africa/Cairo";
      }
      ∷ [];
  products = [];
  sessions = [];
  members = [];
  session_items = [];
  session_orders = [];
  calls = [];
}

pub lunch-IsSound : IsSound lunch
unfolding count
lunch-IsSound = record {
  keyed = (refl, tt);
  balanced = record { linked = (omega arith, tt); priced = ((refl, refl), tt) };
  single = λ r b t. ground arith;
  ledger = (refl, tt);
}

abbrev pub paid_order : Order
paid_order = record first_order {
  payment_status = PaymentStatus.paid;
  payment_method = some PaymentMethod.card;
  paid_at = some 900;
  version = 2;
}

abbrev pub paid_lunch : Db
paid_lunch = record lunch { orders = paid_order ∷ [] }

pub paid_lunch-IsSound : IsSound paid_lunch
unfolding count
paid_lunch-IsSound = record {
  keyed = (refl, tt);
  balanced = record { linked = (omega arith, tt); priced = ((refl, refl), tt) };
  single = λ r b t. ground arith;
  ledger = (refl, tt);
}

abbrev pub takeaway : OrderPayload
takeaway = record {
  source = some OrderSource.cashier;
  type = some OrderType.pickup;
  status = none;
  payment_status = none;
  payment_method = none;
  table_id = none;
  customer_id = none;
  coupon_id = some 6;
  subtotal = 900;
  discount_amount = 0;
  notes = none;
  address = none;
}

pub takeaway-IsPayload : IsPayload plain_env takeaway (soup ∷ [])
takeaway-IsPayload = record { whole = (0, refl); summed = refl; live = refl }
