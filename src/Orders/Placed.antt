-- ===== src/Orders/Placed.antt =====
-- createOrder and createPosOrder keep the database sound, and a manual discount needs its permission.
use Prim.Native.String.{String}
use mathlib.Core.Path.{subst}
use restaurant_management_ba.Base.{
  ℕ, ◌≡◌, refl, sym, ap, ◌∙◌, Bool, false, not, Option, none, some, List, ◌==◌, arith, sum_of, inl,
  inr, Bool-cases, Option-cases, filled,
}
use restaurant_management_ba.Model.{
  Db, Order, OrderStatus, OrderSource, ItemSnapshot, TenantContext, IdempotencyKey, is_cancelled,
}
use restaurant_management_ba.Exec.{
  On, Result, Error, ok, bind_rule, ◌>>=◌, ◌>>◌, gets, check, pure, or_throw, throw_if, type_error,
}
use restaurant_management_ba.Store.{find_first}
use restaurant_management_ba.Customers.Rows.{is_customer}
use restaurant_management_ba.Customers.Change.{find_or_create_customer_by_phone}
use restaurant_management_ba.Env.{IsEnv, IsWhole}
use restaurant_management_ba.Orders.Find.{require_branch}
use restaurant_management_ba.Orders.Create.{or_else, create_order_transaction}
use restaurant_management_ba.Orders.Sound.{IsSound}
use restaurant_management_ba.Orders.Creation.{
  IsAfter, IsAfter-refl, IsAfter-trans, create_order_transaction-IsAfter,
}
use restaurant_management_ba.Orders.Charged.{price_order-IsCharged}
use restaurant_management_ba.Staff.Access.{get_employee_permissions}
use restaurant_management_ba.Orders.Place.{
  World, Outside, CreateOrder, Placed, cached, created, on_db, on_people, on_staff, check_source,
  settle_customer, id_of, check_order_table, price_order, check_discount, order_payload,
  place_order, create_order, require_permission, may, manual_discount, look_up, source_permission,
  source_refused, discount_refused,
}

-- A call that leaves the database as it is.
abbrev Keeps : {A : Type 0} → On World A → Type 0
Keeps m = (w : World) → (m w).1.db ≡ w.db

bind-Keeps :
    {A B : Type 0} (m : On World A) (f : A → On World B)
    → Keeps m
    → ((a : A) → Keeps (f a))
    → Keeps (m >>= f)
bind-Keeps m f h k w =
    bind_rule (λ o. o.1.db ≡ w.db) m f w (λ a w' e. k a w' ∙ sym (ap (λ o. o.1.db) e) ∙ h w)
      (λ x w' e. sym (ap (λ o. o.1.db) e) ∙ h w)

throw_if-Keeps : (b : Bool) (e : Error) → Keeps (throw_if b e)
throw_if-Keeps b e w = refl

require_permission-Keeps :
    (out : Outside) (ctx : TenantContext) (employee : ℕ) (key : String) (e : Error)
    → Keeps (require_permission out ctx employee key e)
unfolding require_permission
require_permission-Keeps out ctx employee key e =
    bind-Keeps (on_staff (get_employee_permissions out.staff_env employee ctx.restaurant_id))
      (λ g. throw_if (not (may g key)) e) (λ w. refl) (λ g. throw_if-Keeps (not (may g key)) e)

check_source-Keeps :
    (out : Outside) (ctx : TenantContext) (payload : CreateOrder)
    → Keeps (check_source out ctx payload)
unfolding check_source
check_source-Keeps out ctx payload w =
    elim (Option-cases (source_permission (or_else payload.source OrderSource.cashier))) [
      | inl e ↦ rw (check_source, e) refl
      | inr (key, e) ↦ elim (Option-cases ctx.employee_id) [
        | inl n ↦ rw (check_source, e, n) refl
        | inr (i, n) ↦
            rw (check_source, e, n) (require_permission-Keeps out ctx i key source_refused w)
      ]
    ]

settle_customer-Keeps :
    (out : Outside) (ctx : TenantContext) (payload : CreateOrder)
    → Keeps (settle_customer out ctx payload)
unfolding settle_customer
settle_customer-Keeps out ctx payload w = elim (Option-cases payload.customer_id) [
  | inr (id, e) ↦
      elim (Option-cases (find_first (is_customer ctx.restaurant_id id) w.people.customers)) [
        | inl n ↦ rw (settle_customer, e, n) refl
        | inr (c, n) ↦ rw (settle_customer, e, n) refl
      ]
  | inl e ↦ elim (Option-cases (filled payload.customer_phone)) [
    | inl n ↦ rw (settle_customer, e, n) refl
    | inr (phone, n) ↦
        rw (settle_customer, e, n)
          (bind-Keeps
            (on_people (
              find_or_create_customer_by_phone out.people_env out.after_failure ctx phone
                payload.customer_name))
            (λ c. pure (id_of c)) (λ v. refl) (λ c v. refl) w)
  ]
]

check_order_table-Keeps :
    (ctx : TenantContext) (branch : ℕ) (t : Option ℕ) → Keeps (check_order_table ctx branch t)
unfolding check_order_table
check_order_table-Keeps ctx branch t w = ground arith

check_discount-Keeps :
    (out : Outside) (ctx : TenantContext) (d : ℕ) → Keeps (check_discount out ctx d)
unfolding check_discount
check_discount-Keeps out ctx d w = elim (Bool-cases (d == 0)) [
  | inl e ↦ rw (check_discount, e) refl
  | inr e ↦ elim (Option-cases ctx.employee_id) [
    | inl n ↦ rw (check_discount, e, n) refl
    | inr (i, n) ↦
        rw (check_discount, e, n)
          (require_permission-Keeps out ctx i "orders.discount" discount_refused w)
  ]
]

require_branch-Keeps :
    (ctx : TenantContext) (branch : ℕ) → Keeps (on_db (require_branch ctx branch))
unfolding require_branch
require_branch-Keeps ctx branch w = ground arith

-- What the caller of a creation answers for: the environment, the other requests between two attempts, that
-- a discount without a coupon is a whole number of cents, and that no order is created cancelled.
pub record IsAnswered (out : Outside) (payload : CreateOrder) : Type 0 where
  pub is_env : IsEnv out.env
  pub others : (n : ℕ) (t : Db) → IsSound t → IsAfter t (out.between n t)
  pub whole : IsWhole out.env (manual_discount payload)
  pub live : is_cancelled (or_else payload.status OrderStatus.pending) ≡ false

module _ (out : Outside) (ctx : TenantContext) (branch : ℕ) (payload : CreateOrder)
    (key : Option String) (answered : IsAnswered out payload) (d : Db) where
  abbrev Good : Result Placed × World → Type 0
  Good o = IsAfter d o.1.db

  -- A call that leaves the database alone may come first.
  first-Keeps :
      {A : Type 0} (m : On World A) (f : A → On World Placed) (w : World)
      → Keeps m
      → IsAfter d w.db
      → ((a : A) (w' : World) → IsAfter d w'.db → m w ≡ (ok a, w') → Good (f a w'))
      → Good ((m >>= f) w)
  first-Keeps m f w k h next =
      bind_rule Good m f w
        (λ a w' e. next a w' (subst (λ s. IsAfter d s) (sym (k w) ∙ ap (λ o. o.1.db) e) h) e)
        (λ x w' e. subst (λ s. IsAfter d s) (sym (k w) ∙ ap (λ o. o.1.db) e) h)

  abbrev finish : Option Order → On World Placed
  finish order = or_throw order type_error >>= λ o. pure (created o)

  finish-Good : (order : Option Order) (w : World) → IsAfter d w.db → Good (finish order w)
  finish-Good none w h = h
  finish-Good (some o) w h = h

  abbrev make : Option ℕ → ℕ → List ItemSnapshot → On World (Option Order)
  make customer subtotal snapshots = on_db (
      create_order_transaction out.env out.between ctx branch
        (order_payload payload customer subtotal) snapshots key)

  made-IsAfter :
      (customer : Option ℕ) (subtotal : ℕ) (snapshots : List ItemSnapshot) (w : World)
      → subtotal ≡ sum_of (λ s. s.subtotal) snapshots
      → IsAfter d w.db
      → IsAfter d (make customer subtotal snapshots w).1.db
  unfolding order_payload
  made-IsAfter customer subtotal snapshots w summed h =
      IsAfter-trans d w.db (make customer subtotal snapshots w).1.db h (
        create_order_transaction-IsAfter out.env out.between ctx branch
          (order_payload payload customer subtotal) snapshots key w.db answered.is_env
          (record { whole = answered.whole; summed = summed; live = answered.live }) answered.others
          h.sound)

  made-Good :
      (customer : Option ℕ) (subtotal : ℕ) (snapshots : List ItemSnapshot) (w : World)
      → subtotal ≡ sum_of (λ s. s.subtotal) snapshots
      → IsAfter d w.db
      → Good ((make customer subtotal snapshots >>= finish) w)
  made-Good customer subtotal snapshots w summed h =
      let after = made-IsAfter customer subtotal snapshots w summed h in
      bind_rule Good (make customer subtotal snapshots) finish w
        (λ order w' e. finish-Good order w' (subst (λ o. IsAfter d o.1.db) e after))
        (λ x w' e. subst (λ o. IsAfter d o.1.db) e after)

  abbrev pay_and_make : Option ℕ → ℕ × List ItemSnapshot → On World Placed
  pay_and_make customer (subtotal, snapshots) =
      check_discount out ctx (manual_discount payload)
      >> (make customer subtotal snapshots >>= finish)

  price_and_make :
      (customer : Option ℕ) (w : World)
      → IsAfter d w.db
      → Good ((check (price_order ctx.restaurant_id payload.items w) >>= pay_and_make customer) w)
  price_and_make customer w h =
      first-Keeps (check (price_order ctx.restaurant_id payload.items w)) (pay_and_make customer) w
        (λ v. refl) h
        (λ (v : ℕ × List ItemSnapshot) w₁ h₁ e.
          first-Keeps (check_discount out ctx (manual_discount payload))
            (λ _. make customer v.0 v.1 >>= finish) w₁
            (check_discount-Keeps out ctx (manual_discount payload)) h₁
            (λ _ w₂ h₂ _.
              made-Good customer v.0 v.1 w₂
                (price_order-IsCharged ctx.restaurant_id payload.items w v.0 v.1
                  (ap (λ o. o.0) e)).0
                h₂))

  abbrev after_table : Option ℕ → On World Placed
  after_table customer =
      gets (price_order ctx.restaurant_id payload.items) >>= λ r. check r >>= pay_and_make customer

  abbrev after_customer : Option ℕ → On World Placed
  after_customer customer = check_order_table ctx branch payload.table_id >> after_table customer

  place_order-Good : (w : World) → IsAfter d w.db → Good (place_order out ctx branch payload key w)
  unfolding place_order
  place_order-Good w h =
      first-Keeps (on_db (require_branch ctx branch))
        (λ _. settle_customer out ctx payload >>= after_customer) w
        (require_branch-Keeps ctx branch) h
        (λ _ w₁ h₁ _.
          first-Keeps (settle_customer out ctx payload) after_customer w₁
            (settle_customer-Keeps out ctx payload) h₁
            (λ customer w₂ h₂ _.
              first-Keeps (check_order_table ctx branch payload.table_id)
                (λ _. after_table customer) w₂ (check_order_table-Keeps ctx branch payload.table_id)
                h₂ (λ _ w₃ h₃ _. price_and_make customer w₃ h₃)))

module _ (out : Outside) (ctx : TenantContext) (branch : ℕ) (payload : CreateOrder)
    (key : Option String) where
  abbrev pub found_or_placed : Option IdempotencyKey → On World Placed
  found_or_placed hit = elim hit as (λ _. On World Placed) [
    | some k ↦ pure (cached k)
    | none ↦ place_order out ctx branch payload (filled key)
  ]

  -- A creation by the service, with its checks, the customer it finds or makes and the prices it works
  -- out, takes a sound database to a sound one and every order forward, however it ends, given that new
  -- identifiers are fresh, a rounded amount is at most half a cent away, a column stores whole cents as
  -- they are, other requests between its attempts do the same, and the request asks for no part of a cent
  -- as its discount and for no cancelled order.
  pub create_order-IsAfter :
      IsAnswered out payload
      → (w : World) → IsSound w.db
      → IsAfter w.db (create_order out ctx branch payload key w).1.db
  unfolding create_order
  create_order-IsAfter a w h =
      first-Keeps out ctx branch payload key a w.db (check_source out ctx payload)
        (λ _. gets (look_up out ctx.restaurant_id (filled key)) >>= found_or_placed) w
        (check_source-Keeps out ctx payload) (IsAfter-refl w.db h)
        (λ _ w' h' _. go w' h' (look_up out ctx.restaurant_id (filled key) w'))
    where
      go :
          (w' : World)
          → IsAfter w.db w'.db
          → (hit : Option IdempotencyKey) → IsAfter w.db (found_or_placed hit w').1.db
      go w' h' none = place_order-Good out ctx branch payload (filled key) a w.db w' h'
      go w' h' (some k) = h'
