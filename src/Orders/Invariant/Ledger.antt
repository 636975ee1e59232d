-- ===== src/Orders/Invariant/Ledger.antt =====
-- The uses of a coupon: its counter is the number of its orders that have not been cancelled.
use mathlib.Core.Path.{subst}
use restaurant_management_ba.Base.{
  ℕ, ◌+◌, ◌≡◌, sym, Bool, true, false, not, ◌&&◌, none, some, List, [], ◌∷◌, ◌++◌, arith, All,
  if◌then◌else◌, is_id, ◌==◌, inl, inr, Bool-cases,
}
use restaurant_management_ba.Model.{Order, Coupon, is_cancelled}
use restaurant_management_ba.Store.{update_many, count, count-append, count-update_many}
use restaurant_management_ba.Coupons.Apply.{is_coupon, use_once}
use restaurant_management_ba.Orders.Changes.{is_used_coupon, give_back}

-- An order that counts as a use of the coupon.
abbrev pub uses : ℕ → ℕ → Order → Bool
uses restaurant coupon o =
    o.restaurant_id == restaurant && is_id o.coupon_id coupon && not (is_cancelled o.status)

abbrev pub IsCounted : List Order → Coupon → Type 0
IsCounted orders c = c.times_used ≡ count (uses c.restaurant_id c.id) orders

abbrev pub IsLedger : List Order → List Coupon → Type 0
IsLedger orders = All (IsCounted orders)

-- An update that changes no use.
pub update-IsLedger :
    (p : Order → Bool) (f : Order → Order) (orders : List Order) (coupons : List Coupon)
    → ((r c : ℕ) (o : Order) → uses r c (f o) ≡ uses r c o)
    → IsLedger orders coupons
    → IsLedger (update_many p f orders) coupons
update-IsLedger p f orders [] same h = tt
update-IsLedger p f orders (c ∷ cs) same h = (
  rw (count-update_many (uses c.restaurant_id c.id) p f orders (same c.restaurant_id c.id)) h.0,
  update-IsLedger p f orders cs same h.1,
)

-- A new order with no coupon, or with the coupon that was counted up for it.
pub create-IsLedger-none :
    (o : Order) (orders : List Order) (coupons : List Coupon)
    → o.coupon_id ≡ none
    → IsLedger orders coupons
    → IsLedger (orders ++ (o ∷ [])) coupons
unfolding count
create-IsLedger-none o orders [] e h = tt
create-IsLedger-none o orders (c ∷ cs) e h = (
  ground (arith, count-append (uses c.restaurant_id c.id) orders (o ∷ []), h.0),
  create-IsLedger-none o orders cs e h.1,
)

pub create-IsLedger-some :
    (k : ℕ) (o : Order) (orders : List Order) (coupons : List Coupon)
    → o.coupon_id ≡ some k
    → is_cancelled o.status ≡ false
    → IsLedger orders coupons
    → IsLedger (orders ++ (o ∷ [])) (update_many (is_coupon o.restaurant_id k) use_once coupons)
unfolding count update_many
create-IsLedger-some k o orders [] e n h = tt
create-IsLedger-some k o orders (c ∷ cs) e n h = (
  ground (arith, count-append (uses c.restaurant_id c.id) orders (o ∷ []), h.0),
  create-IsLedger-some k o orders cs e n h.1,
)

-- An update that reaches one row only, where that row stands in the count before and after.
count-update_one :
    (q p : Order → Bool) (f : Order → Order) (o : Order) (xs : List Order)
    → All (λ x. p x ≡ true → x ≡ o) xs
    → count q (update_many p f xs) + (if q o then count p xs else 0)
      ≡ count q xs + (if q (f o) then count p xs else 0)
unfolding count update_many
count-update_one q p f o [] a = ground arith
count-update_one q p f o (x ∷ xs) a = elim (Bool-cases (p x)) [
  | inl e ↦
      let same : x ≡ o = a.0 e in
      let e' : p o ≡ true = subst (λ z. p z ≡ true) same e in
      subst
        (λ z.
          (if q (if p z then f z else z) then 1 else 0)
            + count q (update_many p f xs)
            + (if q o then (if p z then 1 else 0) + count p xs else 0)
          ≡ (if q z then 1 else 0)
            + count q xs
            + (if q (f o) then (if p z then 1 else 0) + count p xs else 0))
        (sym same) (rw e' (ground (arith, count-update_one q p f o xs a.1)))
  | inr e ↦ rw e (ground (arith, count-update_one q p f o xs a.1))
]

module _ (p : Order → Bool) (f : Order → Order) (o : Order) (orders : List Order)
    (one : All (λ x. p x ≡ true → x ≡ o) orders) where
  -- A change of status of one order that is not cancelled, to one that is not cancelled.
  pub change-IsLedger :
      (coupons : List Coupon)
      → ((r c : ℕ) → uses r c (f o) ≡ uses r c o)
      → IsLedger orders coupons
      → IsLedger (update_many p f orders) coupons
  change-IsLedger [] same h = tt
  change-IsLedger (c ∷ cs) same h = (
    ground (
      arith,
      h.0,
      same c.restaurant_id c.id,
      count-update_one (uses c.restaurant_id c.id) p f o orders one,
    ),
    change-IsLedger cs same h.1,
  )

  -- The cancellation of an order with a coupon, which is then given back.
  pub cancel-IsLedger :
      (k : ℕ) (coupons : List Coupon)
      → count p orders ≡ 1
      → o.coupon_id ≡ some k
      → is_cancelled o.status ≡ false
      → is_cancelled (f o).status ≡ true
      → IsLedger orders coupons
      → IsLedger
          (update_many p f orders)
          (update_many (is_used_coupon o.restaurant_id k) give_back coupons)
  unfolding update_many
  cancel-IsLedger k [] n e live gone h = tt
  cancel-IsLedger k (c ∷ cs) n e live gone h = (
    ground (arith, h.0, count-update_one (uses c.restaurant_id c.id) p f o orders one),
    cancel-IsLedger k cs n e live gone h.1,
  )
