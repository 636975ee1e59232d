-- ===== src/Customers/Defaults.antt =====
-- The default address: a customer with addresses has exactly one.
use restaurant_management_ba.Base.{
  ℕ, ◌+◌, ◌<◌, ◌≡◌, ◌⊎◌, refl, ◌∙◌, Bool, true, false, ◌&&◌, Option, none, some, List, [], ◌∷◌,
  ◌==◌, min, arith, inl, inr, Bool-cases, Option-cases, is_some,
}
use restaurant_management_ba.Store.{
  find_first, find_last, find_first_holds, find_last_holds, find_last-none, find_last-key, count,
  count-append, update_many, count-update_off, count-update_none, count-update_found, one_if,
  IsKeyed, IsKeyed-update_many,
}
use restaurant_management_ba.Customers.Rows.{CustomerAddress, is_live_address, is_address}
use restaurant_management_ba.Customers.Addresses.{
  set_default, clear_defaults, with_address, pass_default,
}

abbrev pub is_default_of : ℕ → ℕ → CustomerAddress → Bool
is_default_of r c a = is_live_address r c a && a.is_default

-- Every customer with an address has one default address, every other customer none.
abbrev pub IsSettled : List CustomerAddress → Type 0
IsSettled rows =
    (r c : ℕ) → count (is_default_of r c) rows ≡ min 1 (count (is_live_address r c) rows)

-- Whether an address is about the customer, and so are the rows that an update touches.
abbrev at : ℕ → ℕ → ℕ → ℕ → Bool
at r c r' c' = r == r' && c == c'

abbrev pub Agrees : ℕ → ℕ → List CustomerAddress → Type 0
Agrees r c rows = count (is_default_of r c) rows ≡ min 1 (count (is_live_address r c) rows)

add_there :
    (a : CustomerAddress) (rows : List CustomerAddress)
    → is_some a.deleted_at ≡ false
    → (a.is_default ≡ false → 0 < count (is_live_address a.restaurant_id a.customer_id) rows)
    → Agrees a.restaurant_id a.customer_id rows
    → Agrees a.restaurant_id a.customer_id (with_address a rows)
unfolding with_address clear_defaults count
add_there a rows live some_there h =
    let r = a.restaurant_id in
    let c = a.customer_id in
    ground (
      arith,
      count-append (is_default_of r c) rows (a ∷ []),
      count-append (is_live_address r c) rows (a ∷ []),
      count-append (is_default_of r c) (update_many (is_live_address r c) (set_default false) rows)
          (a ∷ []),
      count-append (is_live_address r c)
          (update_many (is_live_address r c) (set_default false) rows) (a ∷ []),
      count-update_off (is_live_address r c) (is_live_address r c) (set_default false) rows
          (λ x e. refl),
      count-update_none (is_default_of r c) (is_live_address r c) (set_default false) rows
          (λ x e. ground arith) (λ x e. ground arith),
    )

-- The same addresses and defaults of a customer.
abbrev Same : ℕ → ℕ → List CustomerAddress → List CustomerAddress → Type 0
Same r c rows rows' =
    (count (is_default_of r c) rows' ≡ count (is_default_of r c) rows)
    × (count (is_live_address r c) rows' ≡ count (is_live_address r c) rows)

-- What the updates write keeps the identifiers of an address.
pub record IsInPlace (f : CustomerAddress → CustomerAddress) : Type 0 where
  pub same_id : (a : CustomerAddress) → (f a).id ≡ a.id
  pub same_restaurant : (a : CustomerAddress) → (f a).restaurant_id ≡ a.restaurant_id
  pub same_customer : (a : CustomerAddress) → (f a).customer_id ≡ a.customer_id

-- Addresses that one or more updates of one customer's addresses lead to.
pub data Updates (r c : ℕ) : List CustomerAddress → List CustomerAddress → Type 0 where
  done : (rows : List CustomerAddress) → Updates r c rows rows
  update :
      (p : CustomerAddress → Bool) (f : CustomerAddress → CustomerAddress)
      (rows rows' : List CustomerAddress)
      → ((a : CustomerAddress) → p a ≡ true → is_live_address r c a ≡ true)
      → IsInPlace f
      → Updates r c rows rows'
      → Updates r c rows (update_many p f rows')

-- They are nothing to other customers.
pub others-Same :
    (r c r' c' : ℕ) (rows rows' : List CustomerAddress)
    → at r c r' c' ≡ false
    → Updates r c rows rows'
    → Same r' c' rows rows'
others-Same r c r' c' rows rows' e (done _) = (refl, refl)
others-Same r c r' c' rows rows' e (update p f _ t hp hf u) =
    let (d, l) = others-Same r c r' c' rows t e u in
    let same = hf.same_restaurant in
    let same' = hf.same_customer in
    (
      count-update_off (is_default_of r' c') p f t (λ a m. ground (arith, hp a m, same a, same' a))
          ∙ d,
      count-update_off (is_live_address r' c') p f t
            (λ a m. ground (arith, hp a m, same a, same' a))
          ∙ l,
    )

pub Updates-IsKeyed :
    (r c : ℕ) (rows rows' : List CustomerAddress)
    → Updates r c rows rows'
    → IsKeyed (λ a. a.id) rows
    → IsKeyed (λ a. a.id) rows'
Updates-IsKeyed r c rows rows' (done _) k = k
Updates-IsKeyed r c rows rows' (update p f _ t hp hf u) k =
    IsKeyed-update_many (λ a. a.id) p f t hf.same_id (Updates-IsKeyed r c rows t u k)

pub set_default-IsInPlace : (b : Bool) → IsInPlace (set_default b)
set_default-IsInPlace b = record {
  same_id = λ a. refl;
  same_restaurant = λ a. refl;
  same_customer = λ a. refl;
}

-- It is enough to look at the customer that is written.
pub by_customer :
    (r c : ℕ) (rows rows' : List CustomerAddress)
    → IsSettled rows
    → Agrees r c rows'
    → ((r' c' : ℕ) → at r c r' c' ≡ false → Same r' c' rows rows')
    → IsSettled rows'
by_customer r c rows rows' h here others r' c' = elim (Bool-cases (at r c r' c')) [
  | inl e ↦ ground (arith, here)
  | inr e ↦ let (d, l) = others r' c' e in omega (arith, d, l, h r' c')
]

-- The newest address is one of the customer's.
pub pass_default-Updates :
    (r c : ℕ) (other : CustomerAddress → Bool) (rows rows' : List CustomerAddress)
    → Updates r c rows rows'
    → Updates r c rows (pass_default r c other rows').1
unfolding pass_default
pass_default-Updates r c other rows rows' u =
    go (find_last (λ a. is_live_address r c a && other a) rows')
  where
    go :
        (o : Option CustomerAddress)
        → Updates r c rows
            (elim o as (λ _. Bool × List CustomerAddress) [
              | none ↦ (true, rows')
              | some next ↦ (false, update_many (is_address r c next.id) (set_default true) rows')
            ]).1
    go none = u
    go (some n) =
        update (is_address r c n.id) (set_default true) rows rows' (λ a m. ground arith)
          (set_default-IsInPlace true) u

pub clear-Updates :
    (r c : ℕ) (rows : List CustomerAddress)
    → Updates r c rows (update_many (is_live_address r c) (set_default false) rows)
clear-Updates r c rows =
    update (is_live_address r c) (set_default false) rows rows (λ a m. m)
      (set_default-IsInPlace false) (done rows)

pub add-IsSettled :
    (a : CustomerAddress) (rows : List CustomerAddress)
    → is_some a.deleted_at ≡ false
    → (a.is_default ≡ false → 0 < count (is_live_address a.restaurant_id a.customer_id) rows)
    → IsSettled rows
    → IsSettled (with_address a rows)
unfolding with_address clear_defaults count
add-IsSettled a rows live some_there h =
    let r = a.restaurant_id in
    let c = a.customer_id in
    by_customer r c rows (with_address a rows) h (add_there a rows live some_there (h r c))
      (λ r' c' e.
        let (d, l) =
          others-Same r c r' c' rows (update_many (is_live_address r c) (set_default false) rows) e
            (clear-Updates r c rows) in
        ground (
          arith,
          d,
          l,
          count-append (is_default_of r' c') rows (a ∷ []),
          count-append (is_live_address r' c') rows (a ∷ []),
          count-append (is_default_of r' c')
              (update_many (is_live_address r c) (set_default false) rows) (a ∷ []),
          count-append (is_live_address r' c')
              (update_many (is_live_address r c) (set_default false) rows) (a ∷ []),
        ))

module _ (r c id : ℕ) (rows : List CustomerAddress) (x : CustomerAddress)
    (keyed : IsKeyed (λ a. a.id) rows) (found : find_first (is_address r c id) rows ≡ some x) where
  -- What an update of the address that was found does to the customer's counts.
  pub counted :
      (q : CustomerAddress → Bool) (f : CustomerAddress → CustomerAddress)
      → count q (update_many (is_address r c id) f rows) + one_if (q x)
        ≡ count q rows + one_if (q (f x))
  counted q f =
      count-update_found (λ a. a.id) id q (is_address r c id) f rows x keyed found
        (λ a m. ground arith)

  pub is_one : is_address r c id x ≡ true
  is_one = find_first_holds (is_address r c id) rows x found

-- The default goes to another address, if there is one.
pub pass_default-cases :
    (r c : ℕ) (other : CustomerAddress → Bool) (rows : List CustomerAddress)
    → IsKeyed (λ a. a.id) rows
    → ((pass_default r c other rows ≡ (true, rows))
        × (count (λ a. is_live_address r c a && other a) rows ≡ 0))
      ⊎ ((next : CustomerAddress) × (is_live_address r c next ≡ true)
          × (other next ≡ true)
          × (find_first (is_address r c next.id) rows ≡ some next)
          × (pass_default r c other rows
              ≡ (false, update_many (is_address r c next.id) (set_default true) rows)))
unfolding pass_default
pass_default-cases r c other rows keyed =
    elim (Option-cases (find_last (λ a. is_live_address r c a && other a) rows)) [
      | inl e ↦
          inl (
            rw (pass_default, e) refl,
            find_last-none (λ a. is_live_address r c a && other a) rows e,
          )
      | inr (n, e) ↦
          let m : (is_live_address r c n && other n) ≡ true =
            find_last_holds (λ a. is_live_address r c a && other a) rows n e in
          inr (
            n,
            ground arith,
            ground arith,
            find_last-key (λ a. a.id) n.id (λ a. is_live_address r c a && other a)
                (is_address r c n.id) rows n keyed e (λ a k. ground arith) refl (ground arith),
            rw (pass_default, e) refl,
          )
    ]
