-- ===== src/Orders/Discounts.antt =====
-- createOrder: a manual discount needs its permission.
use Prim.Native.String.{String}
use mathlib.Core.Path.{subst}
use restaurant_management_ba.Base.{
  ℕ, ◌≡◌, ◌≢◌, refl, sym, ap, ◌∙◌, true, not, Option, none, some, List, ◌==◌, arith, inl, inr,
  Bool-cases, Option-cases, filled,
}
use restaurant_management_ba.Model.{Order, ItemSnapshot, TenantContext, IdempotencyKey}
use restaurant_management_ba.Exec.{
  On, Result, Error, ok, bind_rule, ◌>>=◌, ◌>>◌, gets, check, pure, or_throw, throw_if, type_error,
}
use restaurant_management_ba.Store.{find_first}
use restaurant_management_ba.Customers.Rows.{is_customer}
use restaurant_management_ba.Customers.Change.{find_or_create_customer_by_phone}
use restaurant_management_ba.Orders.Find.{require_branch}
use restaurant_management_ba.Orders.Create.{create_order_transaction}
use restaurant_management_ba.Staff.Access.{get_employee_permissions}
use restaurant_management_ba.Orders.Placed.{found_or_placed}
use restaurant_management_ba.Staff.Rows.{Granted, Staff}
use restaurant_management_ba.Orders.Place.{
  World, Outside, CreateOrder, Placed, created, on_db, on_people, on_staff, check_source,
  settle_customer, id_of, check_order_table, price_order, check_discount, order_payload,
  place_order, create_order, require_permission, may, manual_discount, look_up, discount_refused,
}

-- A call that leaves the staff as they are.
abbrev KeepsStaff : {A : Type 0} → On World A → Type 0
KeepsStaff m = (w : World) → (m w).1.staff ≡ w.staff

settle_customer-KeepsStaff :
    (out : Outside) (ctx : TenantContext) (payload : CreateOrder)
    → KeepsStaff (settle_customer out ctx payload)
unfolding settle_customer
settle_customer-KeepsStaff out ctx payload w = elim (Option-cases payload.customer_id) [
  | inr (id, e) ↦
      elim (Option-cases (find_first (is_customer ctx.restaurant_id id) w.people.customers)) [
        | inl n ↦ rw (settle_customer, e, n) refl
        | inr (c, n) ↦ rw (settle_customer, e, n) refl
      ]
  | inl e ↦ elim (Option-cases (filled payload.customer_phone)) [
    | inl n ↦ rw (settle_customer, e, n) refl
    | inr (phone, n) ↦ rw (settle_customer, e, n) (then_id out ctx payload phone w)
  ]
]
  where
    then_id :
        (out : Outside) (ctx : TenantContext) (payload : CreateOrder) (phone : String) (w : World)
        → ((on_people (
                find_or_create_customer_by_phone out.people_env out.after_failure ctx phone
                  payload.customer_name)
              >>= λ c. pure (id_of c))
            w).1.staff
          ≡ w.staff
    then_id out ctx payload phone w =
        bind_rule (λ o. o.1.staff ≡ w.staff)
          (on_people (
            find_or_create_customer_by_phone out.people_env out.after_failure ctx phone
              payload.customer_name))
          (λ c. pure (id_of c)) w (λ c w' e. sym (ap (λ o. o.1.staff) e))
          (λ x w' e. sym (ap (λ o. o.1.staff) e))

check_order_table-KeepsStaff :
    (ctx : TenantContext) (branch : ℕ) (t : Option ℕ) → KeepsStaff (check_order_table ctx branch t)
unfolding check_order_table
check_order_table-KeepsStaff ctx branch t w = ground arith

-- The employee may give discounts, as the staff's tables and the cache are.
abbrev pub MayDiscount : Outside → TenantContext → Staff → Type 0
MayDiscount out ctx t =
    (employee : ℕ) × (g : Granted) × (ctx.employee_id ≡ some employee)
    × ((get_employee_permissions out.staff_env employee ctx.restaurant_id t).0 ≡ ok g)
    × (may g "orders.discount" ≡ true)

require_permission_ok :
    (out : Outside) (ctx : TenantContext) (employee : ℕ) (key : String) (e : Error) (w : World)
    → (require_permission out ctx employee key e w).0 ≡ ok tt
    → (g : Granted) × ((get_employee_permissions out.staff_env employee ctx.restaurant_id w.staff).0
        ≡ ok g)
      × (may g key ≡ true)
unfolding require_permission
require_permission_ok out ctx employee key e w =
    bind_rule
      (λ o.
        o.0 ≡ ok tt
        → (g : Granted) × ((get_employee_permissions out.staff_env employee ctx.restaurant_id
              w.staff).0
            ≡ ok g)
          × (may g key ≡ true))
      (on_staff (get_employee_permissions out.staff_env employee ctx.restaurant_id))
      (λ g. throw_if (not (may g key)) e) w (λ g w' m h. (g, ap (λ o. o.0) m, ground (arith, h)))
      (λ x w' m h. absurd cc)

check_discount_ok :
    (out : Outside) (ctx : TenantContext) (d : ℕ) (w : World)
    → d ≢ 0
    → (check_discount out ctx d w).0 ≡ ok tt
    → MayDiscount out ctx w.staff
unfolding check_discount
check_discount_ok out ctx d w some_given h = elim (Bool-cases (d == 0)) [
  | inl e ↦ absurd (some_given (ground (arith, e)))
  | inr e ↦ elim (Option-cases ctx.employee_id) [
    | inl n ↦ absurd (ground (arith, h, e, n))
    | inr (i, n) ↦
        let same : check_discount out ctx d w
            ≡ require_permission out ctx i "orders.discount" discount_refused w =
          rw (check_discount, e, n) refl in
        let (g, got, can) =
          require_permission_ok out ctx i "orders.discount" discount_refused w
            (ap (λ o. o.0) (sym same) ∙ h) in
        (i, g, n, got, can)
  ]
]

module _ (out : Outside) (ctx : TenantContext) (branch : ℕ) (payload : CreateOrder) (t : Staff)
    (o₁ : Order) (some_given : manual_discount payload ≢ 0) where
  -- What a result shows of the caller.
  abbrev Shows : Result Placed × World → Type 0
  Shows o = o.0 ≡ ok (created o₁) → MayDiscount out ctx t

  staff_first :
      {A : Type 0} (m : On World A) (f : A → On World Placed) (w : World)
      → KeepsStaff m
      → w.staff ≡ t
      → ((a : A) (w' : World) → w'.staff ≡ t → Shows (f a w'))
      → Shows ((m >>= f) w)
  staff_first m f w k h next =
      bind_rule Shows m f w (λ a w' e. next a w' (sym (ap (λ o. o.1.staff) e) ∙ k w ∙ h))
        (λ x w' e r. absurd cc)

  module _ (key : Option String) where
    abbrev make : Option ℕ → ℕ × List ItemSnapshot → On World Placed
    make customer (subtotal, snapshots) =
        on_db (
          create_order_transaction out.env out.between ctx branch
            (order_payload payload customer subtotal) snapshots key)
        >>= λ order. or_throw order type_error >>= λ o. pure (created o)

    abbrev pay : Option ℕ → ℕ × List ItemSnapshot → On World Placed
    pay customer v = check_discount out ctx (manual_discount payload) >> make customer v

    pay-Shows :
        (customer : Option ℕ) (v : ℕ × List ItemSnapshot) (w : World)
        → w.staff ≡ t
        → Shows (pay customer v w)
    pay-Shows customer v w h =
        bind_rule Shows (check_discount out ctx (manual_discount payload)) (λ _. make customer v) w
          (λ _ w' e _.
            subst (MayDiscount out ctx) h
              (check_discount_ok out ctx (manual_discount payload) w some_given (ap (λ o. o.0) e)))
          (λ x w' e r. absurd cc)

    abbrev after_table : Option ℕ → On World Placed
    after_table customer =
        gets (price_order ctx.restaurant_id payload.items) >>= λ r. check r >>= pay customer

    abbrev after_customer : Option ℕ → On World Placed
    after_customer customer = check_order_table ctx branch payload.table_id >> after_table customer

    place_order-Shows : (w : World) → w.staff ≡ t → Shows (place_order out ctx branch payload key w)
    unfolding place_order
    place_order-Shows w h =
        staff_first (on_db (require_branch ctx branch))
          (λ _. settle_customer out ctx payload >>= after_customer) w (λ v. refl) h
          (λ _ w₁ h₁.
            staff_first (settle_customer out ctx payload) after_customer w₁
              (settle_customer-KeepsStaff out ctx payload) h₁
              (λ customer w₂ h₂.
                staff_first (check_order_table ctx branch payload.table_id)
                  (λ _. after_table customer) w₂
                  (check_order_table-KeepsStaff ctx branch payload.table_id) h₂
                  (λ _ w₃ h₃.
                    staff_first (check (price_order ctx.restaurant_id payload.items w₃))
                      (pay customer) w₃ (λ v. refl) h₃ (pay-Shows customer))))

-- A creation that makes an order with a manual discount, which a request with a coupon has not, was asked
-- for by an employee who is the owner or has the permission "orders.discount", as getEmployeePermissions
-- answers after the check of the order's source.
pub create_order-MayDiscount :
    (out : Outside) (ctx : TenantContext) (branch : ℕ) (payload : CreateOrder) (key : Option String)
    (w : World) (o : Order)
    → manual_discount payload ≢ 0
    → (create_order out ctx branch payload key w).0 ≡ ok (created o)
    → MayDiscount out ctx (check_source out ctx payload w).1.staff
unfolding create_order
create_order-MayDiscount out ctx branch payload key w o some_given =
    let t = (check_source out ctx payload w).1.staff in
    bind_rule (Shows out ctx branch payload t o some_given) (check_source out ctx payload)
      (λ _.
        gets (look_up out ctx.restaurant_id (filled key))
        >>= found_or_placed out ctx branch payload key)
      w
      (λ _ w' e.
        go t w' (sym (ap (λ r. r.1.staff) e)) (look_up out ctx.restaurant_id (filled key) w'))
      (λ x w' e r. absurd cc)
  where
    go :
        (t : Staff) (w' : World)
        → w'.staff ≡ t
        → (hit : Option IdempotencyKey)
        → Shows out ctx branch payload t o some_given
            (found_or_placed out ctx branch payload key hit w')
    go t w' h none = place_order-Shows out ctx branch payload t o some_given (filled key) w' h
    go t w' h (some k) = λ r. absurd cc
