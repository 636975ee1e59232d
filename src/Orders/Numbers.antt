-- ===== src/Orders/Numbers.antt =====
-- findNextOrderNumber in createOrderInClient: the numbers of a day grow.
use Prim.Native.String.{String}
use text.Mathlib.TextPositions.{eq_refl}
use restaurant_management_ba.Base.{
  ℕ, ◌≤◌, ◌<◌, ◌≡◌, refl, Bool, true, Option, none, some, List, [], ◌∷◌, ◌++◌, arith, All, All-map,
}
use restaurant_management_ba.Model.{Db, Order, ItemSnapshot, TenantContext}
use restaurant_management_ba.Store.{count, find_max}
use restaurant_management_ba.Exec.{ok}
use restaurant_management_ba.Env.{Env}
use restaurant_management_ba.Orders.Find.{is_of_day, find_next_order_number}
use restaurant_management_ba.Orders.Create.{OrderPayload, Meta, create_order_in_client, new_order}
use restaurant_management_ba.Orders.Growth.{create_ok, created_order}

abbrev IsUnder : Option ℕ → ℕ → Type 0
IsUnder none n = ⊥
IsUnder (some m) n = n ≤ m

module _ {A : Type 0} (p : A → Bool) (f : A → ℕ) where
  find_max_grows :
      (x : A) (xs : List A) (n : ℕ)
      → IsUnder (find_max p f xs) n
      → IsUnder (find_max p f (x ∷ xs)) n
  unfolding find_max
  find_max_grows x xs n h = ground arith

  find_max_head : (x : A) (xs : List A) → p x ≡ true → IsUnder (find_max p f (x ∷ xs)) (f x)
  unfolding find_max
  find_max_head x xs h = ground arith

  find_max_bounds : (xs : List A) → All (λ x. p x ≡ true → IsUnder (find_max p f xs) (f x)) xs
  find_max_bounds [] = tt
  find_max_bounds (x ∷ xs) = (
    find_max_head x xs,
    All-map (λ y. p y ≡ true → IsUnder (find_max p f xs) (f y)) _ xs
        (λ y h k. find_max_grows x xs (f y) (h k)) (find_max_bounds xs),
  )

  find_max-none : (xs : List A) → count p xs ≡ 0 → find_max p f xs ≡ none
  unfolding find_max count
  find_max-none [] h = refl
  find_max-none (x ∷ xs) h = ground (arith, find_max-none xs (ground arith))

module _ (r b : ℕ) (date : String) (start : ℕ) (s : Db) where
  abbrev next : ℕ
  next = find_next_order_number r b date start s

  next_above :
      (n : ℕ) → IsUnder (find_max (is_of_day r b date) (λ o. o.order_number) s.orders) n → n < next
  unfolding find_next_order_number
  next_above n h = ground arith

  next_start : count (is_of_day r b date) s.orders ≡ 0 → next ≡ start
  unfolding find_next_order_number
  next_start h = ground (arith, find_max-none (is_of_day r b date) (λ o. o.order_number) s.orders h)

-- A creation that returns puts one order after the others, on the day that was asked for; its number is
-- above all numbers of the branch's orders of that day, and is the start number if there are none.
pub create_order_in_client_numbers :
    (env : Env) (ctx : TenantContext) (b : ℕ) (p : OrderPayload) (items : List ItemSnapshot)
    (key : Option String) (meta : Meta) (s : Db) (r : Option Order)
    → (create_order_in_client env ctx b p items key meta s).0 ≡ ok r
    → (o : Order) × ((create_order_in_client env ctx b p items key meta s).1.orders
        ≡ s.orders ++ (o ∷ []))
      × (is_of_day ctx.restaurant_id b meta.date_key o ≡ true)
      × All
          (λ x.
            is_of_day ctx.restaurant_id b meta.date_key x ≡ true → x.order_number < o.order_number)
          s.orders
      × (count (is_of_day ctx.restaurant_id b meta.date_key) s.orders ≡ 0
          → o.order_number ≡ meta.start_number)
unfolding new_order
create_order_in_client_numbers env ctx b p items key meta s r h = (
  created_order env ctx b p items key meta s,
  (create_ok env ctx b p items key meta s h).0,
  ground (arith, eq_refl meta.date_key),
  All-map _ _ s.orders
      (λ x k d.
        next_above ctx.restaurant_id b meta.date_key meta.start_number s x.order_number (k d))
      (find_max_bounds (is_of_day ctx.restaurant_id b meta.date_key) (λ o. o.order_number)
        s.orders),
  next_start ctx.restaurant_id b meta.date_key meta.start_number s,
)
