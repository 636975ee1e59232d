-- ===== src/Orders/Invariant/Tables.antt =====
-- A table carries at most one active order of the staff; orders that guests place by its QR code are
-- rounds of a table session, and are not counted.
use restaurant_management_ba.Base.{
  ℕ, ◌≤◌, ◌≡◌, refl, sym, ◌∙◌, Bool, true, false, not, ◌&&◌, none, some, List, [], ◌∷◌, ◌++◌, arith,
  length, inl, inr, Bool-cases,
}
use restaurant_management_ba.Model.{Db, Order, OrderSource, is_qr}
use restaurant_management_ba.Store.{Rows, count, count-append, find_first}
use restaurant_management_ba.Exec.{ok}
use restaurant_management_ba.Orders.Find.{holds_table}
use restaurant_management_ba.Orders.Create.{OrderPayload, check_table, or_else}
use restaurant_management_ba.Orders.Evolution.{Evolves}

abbrev pub staff_holds : ℕ → ℕ → ℕ → Order → Bool
staff_holds r b t o = not (is_qr o.source) && holds_table r b t o

abbrev pub IsSingle : List Order → Type 0
IsSingle orders = (r b t : ℕ) → count (staff_holds r b t) orders ≤ 1

-- An order that holds a table has held it before, since no order becomes active again.
staff_holds-Evolves :
    (r b t : ℕ) (x y : Order)
    → Evolves x y
    → staff_holds r b t y ≡ true
    → staff_holds r b t x ≡ true
staff_holds-Evolves r b t x y e h = ground arith

count-Rows :
    (R : Order → Order → Type 0) (q : Order → Bool) (xs ys : List Order)
    → ((x y : Order) → R x y → q y ≡ true → q x ≡ true)
    → length ys ≡ length xs
    → Rows R xs ys
    → count q ys ≤ count q xs
unfolding count
count-Rows R q [] [] keep l r = omega arith
count-Rows R q [] (y ∷ ys) keep l r = absurd (omega arith)
count-Rows R q (x ∷ xs) [] keep l r = absurd r
count-Rows R q (x ∷ xs) (y ∷ ys) keep l (r, rs) =
    ground (arith, keep x y r, count-Rows R q xs ys keep (omega arith) rs)

pub evolve-IsSingle :
    (xs ys : List Order) → length ys ≡ length xs → Rows Evolves xs ys → IsSingle xs → IsSingle ys
evolve-IsSingle xs ys l e h r b t =
    omega
      (arith, h r b t, count-Rows Evolves (staff_holds r b t) xs ys (staff_holds-Evolves r b t) l e)

-- What the check of a new order establishes.
pub check_table_free :
    (r b t : ℕ) (p : OrderPayload) (s : Db)
    → (check_table r b p s).0 ≡ ok tt
    → p.table_id ≡ some t
    → is_qr (or_else p.source OrderSource.cashier) ≡ false
    → find_first (holds_table r b t) s.orders ≡ none
unfolding check_table
check_table_free r b t p s h e q = ground arith

count-none :
    (q p : Order → Bool) (xs : List Order)
    → ((x : Order) → q x ≡ true → p x ≡ true)
    → find_first p xs ≡ none
    → count q xs ≡ 0
unfolding count find_first
count-none q p [] keep h = refl
count-none q p (x ∷ xs) keep h = ground (arith, keep x, count-none q p xs keep)

count-one : (q : Order → Bool) (o : Order) → count q (o ∷ []) ≤ 1
unfolding count
count-one q o = ground arith

count-miss : (q : Order → Bool) (o : Order) → q o ≡ false → count q (o ∷ []) ≡ 0
unfolding count
count-miss q o e = rw e

staff_holds_facts :
    (r b t : ℕ) (o : Order)
    → staff_holds r b t o ≡ true
    → (o.restaurant_id ≡ r)
      × (o.branch_id ≡ b)
      × (o.table_id ≡ some t)
      × (is_qr o.source ≡ false)
      × (holds_table r b t o ≡ true)
staff_holds_facts r b t o h = ground arith

-- A new order is on no table, or guests placed it, or no active order holds its table.
pub create-IsSingle :
    (s : Db) (p : OrderPayload) (o : Order)
    → o.table_id ≡ p.table_id
    → o.source ≡ or_else p.source OrderSource.cashier
    → (check_table o.restaurant_id o.branch_id p s).0 ≡ ok tt
    → IsSingle s.orders
    → IsSingle (s.orders ++ (o ∷ []))
create-IsSingle s p o et es free h r b t = elim (Bool-cases (staff_holds r b t o)) [
  | inl e ↦
      let (er, eb, on, staff, _) = staff_holds_facts r b t o e in
      let none_there : find_first (holds_table r b t) s.orders ≡ none =
        rw (← er, ← eb)
          (check_table_free o.restaurant_id o.branch_id t p s free (sym et ∙ on)
            (rw (← es) staff)) in
      omega (
        arith,
        count-append (staff_holds r b t) s.orders (o ∷ []),
        count-one (staff_holds r b t) o,
        count-none (staff_holds r b t) (holds_table r b t) s.orders
            (λ x k. (staff_holds_facts r b t x k).4) none_there,
      )
  | inr e ↦ omega (
    arith,
    h r b t,
    count-append (staff_holds r b t) s.orders (o ∷ []),
    count-miss (staff_holds r b t) o e,
  )
]
