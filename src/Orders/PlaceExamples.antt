-- ===== src/Orders/PlaceExamples.antt =====
-- The theorems on createOrder at a lunch that a waiter adds an order to.
use restaurant_management_ba.Base.{
  ◌≡◌, refl, true, false, none, some, List, [], ◌∷◌, arith, sum_of, suc,
}
use restaurant_management_ba.Model.{Order, OrderType, Product, ItemSnapshot}
use restaurant_management_ba.Store.{
  find_first, find_many, find_max, count, update_many, delete_many,
}
use restaurant_management_ba.Exec.{ok, transaction}
use restaurant_management_ba.Orders.Find.{require_branch, find_next_order_number}
use restaurant_management_ba.Orders.Create.{
  create_order_transaction, create_order_in_client, check_table, settle_discount, new_order,
  insert_order, finish_order, set_table, save_key, order_meta, date_key_in_timezone, attempts,
}
use restaurant_management_ba.Orders.Creation.{IsAfter, IsAfter-refl}
use restaurant_management_ba.Orders.Sound.{IsSound}
use restaurant_management_ba.Orders.Scenario.{
  plain_env, plain_env-IsEnv, waiter, lunch, lunch-IsSound,
}
use restaurant_management_ba.Orders.Pricing.{
  ProductModifier, QuantityMode, ItemInput, price_items, price_item, price_modifiers,
  modifier_quantity, selected_modifier, all_modifiers,
}
use restaurant_management_ba.Orders.Place.{
  World, Outside, CreateOrder, created, create_order, place_order, check_source, settle_customer,
  check_order_table, price_order, check_discount, require_permission, order_payload,
}
use restaurant_management_ba.Orders.Charged.{IsCharged, Pairs, price_order-IsCharged}
use restaurant_management_ba.Orders.Placed.{IsAnswered, create_order-IsAfter}
use restaurant_management_ba.Orders.Discounts.{MayDiscount, create_order-MayDiscount}
use restaurant_management_ba.Staff.Access.{
  get_employee_permissions, read_cache, fetch_permissions, granted_by, role_keys, write_cache,
}
use restaurant_management_ba.Staff.Scenario.{cafe, clock_at}

abbrev salad : Product
salad = record {
  id = 20;
  restaurant_id = 1;
  name = "salad";
  price = 700;
  is_available = true;
  is_enabled = true;
  deleted_at = none;
}

abbrev cheese : ProductModifier
cheese = record {
  id = 30;
  restaurant_id = 1;
  product_id = 20;
  name = "cheese";
  price_delta = 50;
  is_required = false;
  quantity_mode = QuantityMode.quantity;
  max_quantity = 2;
  deleted_at = none;
}

abbrev noon : World
noon = record {
  db = record lunch { products = salad ∷ [] };
  people = record { customers = []; phones = []; addresses = [] };
  staff = cafe;
  modifiers = cheese ∷ [];
}

noon-IsSound : IsSound noon.db
noon-IsSound = record {
  keyed = lunch-IsSound.keyed;
  balanced = lunch-IsSound.balanced;
  single = lunch-IsSound.single;
  ledger = lunch-IsSound.ledger;
}

abbrev till : Outside
till = record {
  env = plain_env;
  people_env = record {
    now = 1_000;
    next_customer = λ s. suc (sum_of (λ c. c.id) s.customers);
    next_address = λ s. suc (sum_of (λ a. a.id) s.addresses);
  };
  staff_env = clock_at 1_000;
  after_failure = λ m. m;
  between = λ n t. t;
}

-- Three salads with cheese three times, of which two are charged, and a discount.
abbrev salads : List ItemInput
salads =
    record {
      product_id = 20;
      quantity = 3;
      modifiers = record { modifier_id = 30; quantity = 3 } ∷ [];
      modifier_ids = [];
      notes = none;
      round = none;
    }
    ∷ []

abbrev order_body : CreateOrder
order_body = record {
  source = none;
  type = some OrderType.pickup;
  status = none;
  payment_status = none;
  payment_method = none;
  table_id = none;
  customer_id = none;
  customer_phone = none;
  customer_name = none;
  coupon_id = none;
  discount_amount = 4_000_000;
  notes = none;
  address = none;
  items = salads;
}

abbrev salad_line : ItemSnapshot
salad_line = record {
  product_id = 20;
  product_name = "salad";
  quantity = 3;
  unit_price = 800;
  subtotal = 2400;
  notes = none;
  selected_modifiers =
      some (record { id = 30; name = "cheese"; price_delta = 50; quantity = 2 } ∷ []);
  round = 1;
}

priced : price_order 1 salads noon ≡ ok (2400, salad_line ∷ [])
unfolding price_order all_modifiers price_items price_item price_modifiers modifier_quantity
    selected_modifier find_first find_many
priced = refl

price_order-IsCharged_example :
    (2400 ≡ sum_of (λ s. s.subtotal) (salad_line ∷ []))
    × Pairs (IsCharged 1 noon.db.products noon.modifiers) salads (salad_line ∷ [])
price_order-IsCharged_example = price_order-IsCharged 1 salads noon 2400 (salad_line ∷ []) priced

answered : IsAnswered till order_body
answered = record {
  is_env = plain_env-IsEnv;
  others = λ n t h. IsAfter-refl t h;
  whole = (400, refl);
  live = refl;
}

create_order-IsAfter_example :
    IsAfter noon.db (create_order till waiter 2 order_body none noon).1.db
create_order-IsAfter_example =
    create_order-IsAfter till waiter 2 order_body none answered noon noon-IsSound

abbrev lunch_order : Order
lunch_order =
    new_order plain_env waiter 2 (order_payload order_body none 2400) 6 "2024-05-01" 201 4_000_000

placed : (create_order till waiter 2 order_body none noon).0 ≡ ok (created lunch_order)
unfolding create_order place_order check_source settle_customer check_order_table price_order
    check_discount require_permission order_payload get_employee_permissions read_cache
    fetch_permissions granted_by role_keys write_cache all_modifiers price_items price_item
    price_modifiers modifier_quantity selected_modifier find_first find_many find_max count
    update_many delete_many require_branch find_next_order_number create_order_transaction
    create_order_in_client check_table settle_discount new_order insert_order finish_order set_table
    save_key order_meta date_key_in_timezone attempts transaction
placed = refl

create_order-MayDiscount_example :
    MayDiscount till waiter (check_source till waiter order_body noon).1.staff
create_order-MayDiscount_example =
    create_order-MayDiscount till waiter 2 order_body none noon lunch_order (λ e. omega arith)
      placed

-- A discount of half a cent: it is stored as a whole cent, and the total is stored without it.
abbrev half_cent : Order
half_cent =
    new_order plain_env waiter 2
      (order_payload (record order_body { discount_amount = 5_000 }) none 1000) 6 "2024-05-01" 201
      5_000

half_cent_row : (half_cent.discount_amount ≡ 1) × (half_cent.total ≡ 1000)
unfolding new_order order_payload
half_cent_row = (refl, refl)
