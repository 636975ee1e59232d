-- ===== src/Orders/Examples.antt =====
-- The theorems on orders at concrete requests.
use mathlib.Core.Path.{subst}
use restaurant_management_ba.Base.{
  ◌≤◌, ◌<◌, ◌≡◌, ◌≢◌, true, ◌++◌, refl, Option, none, some, List, [], ◌∷◌, arith, inl, ◌⊎◌, ◌↔◌, ℕ,
  All,
}
use restaurant_management_ba.Model.{TenantContext, Db, Order, OrderStatus, OrderType, PaymentMethod}
use restaurant_management_ba.Store.{find_first, find_max, count}
use restaurant_management_ba.Exec.{ok, transaction}
use restaurant_management_ba.Orders.Find.{find_order_by_id, is_of_day, find_next_order_number}
use restaurant_management_ba.Orders.Transitions.{validate_transition}
use restaurant_management_ba.Orders.Graph.{Next, validate_transition_iff}
use restaurant_management_ba.Orders.Create.{
  OrderPayload, Meta, create_order_transaction, create_order_in_client, check_table,
  settle_discount, new_order, insert_order, finish_order, set_table, save_key, insert_key,
  order_meta, date_key_in_timezone, attempts,
}
use restaurant_management_ba.Orders.Numbers.{create_order_in_client_numbers}
use restaurant_management_ba.Orders.Once.{create_order_transaction_once}
use restaurant_management_ba.Orders.Append.{append_items}
use restaurant_management_ba.Orders.Creation.{IsAfter, create_order_transaction-IsAfter}
use restaurant_management_ba.Orders.Appending.{append_items-IsAfter}
use restaurant_management_ba.Orders.Service.{
  update_order_status, cancel_order, process_order_payment, process_order_refund,
}
use restaurant_management_ba.Orders.Monotone.{
  IsGuarded, Follows, update_order_status-Follows, cancel_order-Follows,
  process_order_payment-Follows, process_order_refund-Follows,
}
use restaurant_management_ba.Orders.Trace.{
  Request, create, append, set_status, cancel, pay, refund, serve_request, serve_all,
  serve_request-IsAfter, serve_all-IsAfter,
}
use restaurant_management_ba.Orders.Scenario.{
  plain_env, plain_env-IsEnv, waiter, soup, first_order, lunch, lunch-IsSound, paid_lunch,
  paid_lunch-IsSound, takeaway, takeaway-IsPayload,
}

-- A day: an order with a coupon is created, the first one is cooked, paid, and refunded, the second is
-- cancelled.
abbrev a_day : List Request
a_day =
    create waiter 2 takeaway (soup ∷ []) (some "k")
    ∷ append waiter 2 5 (soup ∷ [])
    ∷ set_status waiter 2 5 OrderStatus.preparing 2 none
    ∷ pay waiter 2 5 3 1800 PaymentMethod.cash
    ∷ refund waiter 2 5 4 "cold"
    ∷ cancel waiter 2 6 1 (some "late")
    ∷ []

serve_all-IsAfter_example : IsAfter lunch (serve_all plain_env a_day lunch)
serve_all-IsAfter_example =
    serve_all-IsAfter plain_env a_day lunch plain_env-IsEnv
      (takeaway-IsPayload, (tt, (tt, (tt, (tt, (tt, tt)))))) lunch-IsSound

abbrev AtLeast : ℕ → Option Order → Type 0
AtLeast v none = Unit
AtLeast v (some o) = v ≤ o.version

-- A payment that arrives between the read and the write of another request.
abbrev other_pays : Db → Db
other_pays = serve_request plain_env (pay waiter 2 5 1 900 PaymentMethod.card)

guarded_lunch : IsGuarded waiter 2 5 other_pays 1 lunch
unfolding find_order_by_id find_first
guarded_lunch = record {
  keyed = lunch-IsSound.keyed;
  others =
      (serve_request-IsAfter plain_env (pay waiter 2 5 1 900 PaymentMethod.card) lunch
        plain_env-IsEnv tt lunch-IsSound).follows;
  seen = λ o e. inl (subst (AtLeast 1) e (omega arith));
}

update_order_status-Follows_example :
    Follows lunch.orders
      (update_order_status other_pays waiter 2 5 OrderStatus.preparing 1 none lunch).1.orders
update_order_status-Follows_example =
    update_order_status-Follows waiter 2 5 other_pays 1 lunch OrderStatus.preparing none
      guarded_lunch

cancel_order-Follows_example :
    Follows lunch.orders (cancel_order other_pays waiter 2 5 1 (some "gone") lunch).1.orders
cancel_order-Follows_example =
    cancel_order-Follows waiter 2 5 other_pays 1 lunch (some "gone") guarded_lunch

process_order_payment-Follows_example :
    Follows lunch.orders
      (process_order_payment other_pays plain_env waiter 2 5 1 900 PaymentMethod.cash
        lunch).1.orders
process_order_payment-Follows_example =
    process_order_payment-Follows waiter 2 5 other_pays 1 lunch plain_env 900 PaymentMethod.cash
      guarded_lunch

-- The kitchen moves the paid order on while it is refunded.
abbrev other_cooks : Db → Db
other_cooks = serve_request plain_env (set_status waiter 2 5 OrderStatus.preparing 2 none)

guarded_paid : IsGuarded waiter 2 5 other_cooks 2 paid_lunch
unfolding find_order_by_id find_first
guarded_paid = record {
  keyed = paid_lunch-IsSound.keyed;
  others =
      (serve_request-IsAfter plain_env (set_status waiter 2 5 OrderStatus.preparing 2 none)
        paid_lunch plain_env-IsEnv tt paid_lunch-IsSound).follows;
  seen = λ o e. inl (subst (AtLeast 2) e (omega arith));
}

process_order_refund-Follows_example :
    Follows paid_lunch.orders
      (process_order_refund other_cooks plain_env waiter 2 5 2 "cold" paid_lunch).1.orders
process_order_refund-Follows_example =
    process_order_refund-Follows waiter 2 5 other_cooks 2 paid_lunch plain_env "cold" guarded_paid

-- Another request takes the number of the day before each attempt.
create_order_transaction-IsAfter_example :
    IsAfter lunch
      (create_order_transaction plain_env
        (λ n. serve_request plain_env (append waiter 2 5 (soup ∷ [])))
        waiter
        2
        takeaway
        (soup ∷ [])
        (some "k")
        lunch).1
create_order_transaction-IsAfter_example =
    create_order_transaction-IsAfter plain_env
      (λ n. serve_request plain_env (append waiter 2 5 (soup ∷ []))) waiter 2 takeaway (soup ∷ [])
      (some "k") lunch plain_env-IsEnv takeaway-IsPayload
      (λ n t k.
        serve_request-IsAfter plain_env (append waiter 2 5 (soup ∷ [])) t plain_env-IsEnv tt k)
      lunch-IsSound

appended : (append_items waiter 2 5 (soup ∷ []) lunch).0 ≡ ok 5
unfolding append_items find_first count
appended = refl

append_items-IsAfter_example : IsAfter lunch (append_items waiter 2 5 (soup ∷ []) lunch).1
append_items-IsAfter_example =
    append_items-IsAfter waiter 2 5 (soup ∷ []) lunch lunch-IsSound appended

validate_transition_iff_example :
    (validate_transition OrderStatus.pending OrderStatus.confirmed OrderType.dine_in ≡ ok tt) ↔ (
      (OrderStatus.pending ≡ OrderStatus.confirmed)
      ⊎ Next OrderType.dine_in OrderStatus.pending OrderStatus.confirmed)
validate_transition_iff_example =
    validate_transition_iff OrderStatus.pending OrderStatus.confirmed OrderType.dine_in

abbrev plain_meta : Meta
plain_meta = record { start_number = 200; date_key = "2024-05-01" }

abbrev walk_in : OrderPayload
walk_in = record takeaway { coupon_id = none }

abbrev second_order : Order
second_order = record first_order {
  id = 6;
  order_number = 201;
  type = OrderType.pickup;
  status = OrderStatus.pending;
  table_id = none;
}

created :
    (create_order_in_client plain_env waiter 2 walk_in (soup ∷ []) (some "k") plain_meta lunch).0
    ≡ ok (some second_order)
unfolding create_order_in_client check_table settle_discount new_order insert_order finish_order
    set_table save_key insert_key find_next_order_number find_max find_first count
created = refl

create_order_in_client_numbers_example :
    (o : Order) × ((create_order_in_client plain_env waiter 2 walk_in
        (soup ∷ [])
        (some "k")
        plain_meta
        lunch).1.orders
      ≡ lunch.orders ++ (o ∷ []))
    × (is_of_day 1 2 "2024-05-01" o ≡ true)
    × All (λ x. is_of_day 1 2 "2024-05-01" x ≡ true → x.order_number < o.order_number) lunch.orders
    × (count (is_of_day 1 2 "2024-05-01") lunch.orders ≡ 0 → o.order_number ≡ 200)
create_order_in_client_numbers_example =
    create_order_in_client_numbers plain_env waiter 2 walk_in (soup ∷ []) (some "k") plain_meta
      lunch (some second_order) created

transacted :
    (create_order_transaction plain_env (λ n t. t) waiter 2 walk_in (soup ∷ []) (some "k") lunch).0
    ≡ ok (some second_order)
unfolding create_order_transaction attempts transaction order_meta date_key_in_timezone
    create_order_in_client check_table settle_discount new_order insert_order finish_order set_table
    save_key insert_key find_next_order_number find_max find_first count
transacted = refl

-- Another employee of the restaurant comes with the same key.
abbrev cashier : TenantContext
cashier = record { restaurant_id = 1; employee_id = some 5 }

create_order_transaction_once_example :
    (create_order_transaction plain_env
      (λ n t. t)
      cashier
      2
      takeaway
      (soup ∷ [])
      (some "k")
      (create_order_transaction plain_env
        (λ n t. t)
        waiter
        2
        walk_in
        (soup ∷ [])
        (some "k")
        lunch).1).0
    ≢ ok (some second_order)
create_order_transaction_once_example =
    create_order_transaction_once plain_env (λ n t. t) waiter 2 walk_in (soup ∷ []) "k" lunch
      (some second_order) plain_env (λ n t. t) cashier 2 takeaway (soup ∷ [])
      (create_order_transaction plain_env (λ n t. t) waiter 2 walk_in (soup ∷ []) (some "k")
        lunch).1
      (some second_order) transacted refl (λ k. k) (λ n u k. k)
