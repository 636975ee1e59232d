-- ===== src/Orders/Invariant/Balance.antt =====
-- The money of an order: its subtotal is the sum of its items, and its total is the subtotal less the
-- discount.
use mathlib.Core.Path.{subst}
use mathlib.Core.Bool.{false≢true}
use restaurant_management_ba.Base.{
  ℕ, ◌+◌, ◌-◌, ◌<◌, ◌≡◌, ◌≢◌, refl, sym, ◌∙◌, inl, inr, Bool, true, List, [], ◌∷◌, ◌++◌, arith, All,
  All-append, All-map, Bool-cases, sum_of, sum_of-append, ◌==◌, if◌then◌else◌,
}
use restaurant_management_ba.Model.{Order, OrderItem, ItemSnapshot}
use restaurant_management_ba.Store.{update_many, count, count-append, count-update_many, All-absent}
use restaurant_management_ba.Orders.Create.{items_of}

-- The items of one order, summed.
abbrev pub items_total : ℕ → List OrderItem → ℕ
items_total id = sum_of λ i. if i.order_id == id then i.item.subtotal else 0

abbrev pub IsPriced : List OrderItem → Order → Type 0
IsPriced items o =
    (o.subtotal ≡ items_total o.id items) × (o.total ≡ o.subtotal - o.discount_amount)

abbrev pub IsLinked : List Order → OrderItem → Type 0
IsLinked orders i = 0 < count (λ (o : Order). o.id == i.order_id) orders

-- Every item belongs to an order, and every order is priced.
pub record IsBalanced (orders : List Order) (items : List OrderItem) : Type 0 where
  pub linked : All (IsLinked orders) items
  pub priced : All (IsPriced items) orders

All-update_many :
    {A : Type 0} (P : A → Type 0) (p : A → Bool) (f : A → A) (xs : List A)
    → ((x : A) → P x → P (f x))
    → All P xs
    → All P (update_many p f xs)
unfolding update_many
All-update_many P p f [] keep h = tt
All-update_many P p f (x ∷ xs) keep h = (at_row, All-update_many P p f xs keep h.1)
  where
    at_row : P (if p x then f x else x)
    at_row = elim (Bool-cases (p x)) [ inl e ↦ rw e (keep x h.0) | inr e ↦ rw e h.0 ]

-- An update of other columns.
pub update-IsBalanced :
    (p : Order → Bool) (f : Order → Order) (orders : List Order) (items : List OrderItem)
    → ((o : Order) → (f o).id ≡ o.id)
    → ((o : Order) → IsPriced items o → IsPriced items (f o))
    → IsBalanced orders items
    → IsBalanced (update_many p f orders) items
update-IsBalanced p f orders items same keep h = record {
  linked =
      All-map (IsLinked orders) (IsLinked (update_many p f orders)) items
        (λ i l.
          rw (count-update_many (λ (o : Order). o.id == i.order_id) p f orders (λ o. rw (same o)))
            l)
        h.linked;
  priced = All-update_many (IsPriced items) p f orders keep h.priced;
}

-- The items of an order that is not there.
items_total-absent :
    (id : ℕ) (orders : List Order) (items : List OrderItem)
    → count (λ (o : Order). o.id == id) orders ≡ 0
    → All (IsLinked orders) items
    → items_total id items ≡ 0
items_total-absent id orders [] n h = refl
items_total-absent id orders (i ∷ is) n h = elim (Bool-cases (i.order_id == id)) [
  | inl e ↦
      let same : i.order_id ≡ id = ground arith in
      absurd (omega (arith, subst (λ j. 0 < count (λ (o : Order). o.id == j) orders) same h.0))
  | inr e ↦ ground (arith, items_total-absent id orders is n h.1)
]

items_total-items_of :
    (r id : ℕ) (items : List ItemSnapshot)
    → items_total id (items_of r id items) ≡ sum_of (λ i. i.subtotal) items
items_total-items_of r id [] = refl
items_total-items_of r id (i ∷ is) = ground (arith, items_total-items_of r id is)

items_total-items_of_ne :
    (r id j : ℕ) (items : List ItemSnapshot) → id ≢ j → items_total j (items_of r id items) ≡ 0
items_total-items_of_ne r id j [] ne = refl
items_total-items_of_ne r id j (i ∷ is) ne = ground (arith, items_total-items_of_ne r id j is)

module _ (r : ℕ) (o : Order) (snaps : List ItemSnapshot) (orders : List Order)
    (items : List OrderItem) where
  abbrev added : ℕ
  added = sum_of (λ (i : ItemSnapshot). i.subtotal) snaps

  -- Items of one order leave the sums of the others alone.
  items_total-others :
      (j : ℕ) → j ≢ o.id → items_total j (items ++ items_of r o.id snaps) ≡ items_total j items
  items_total-others j ne = omega (
    arith,
    sum_of-append {0} (λ (i : OrderItem). if i.order_id == j then i.item.subtotal else 0) items
        (items_of r o.id snaps),
    items_total-items_of_ne r o.id j snaps (λ e. ne (sym e)),
  )

  items_total-own :
      items_total o.id (items ++ items_of r o.id snaps) ≡ items_total o.id items + added
  items_total-own = omega (
    arith,
    sum_of-append {0} (λ (i : OrderItem). if i.order_id == o.id then i.item.subtotal else 0) items
        (items_of r o.id snaps),
    items_total-items_of r o.id snaps,
  )

  IsLinked-items_of :
      (all : List Order) (is : List ItemSnapshot)
      → 0 < count (λ (x : Order). x.id == o.id) all
      → All (IsLinked all) (items_of r o.id is)
  IsLinked-items_of all [] h = tt
  IsLinked-items_of all (i ∷ is) h = (h, IsLinked-items_of all is h)

  -- A new order with its items.
  pub create-IsBalanced :
      count (λ (x : Order). x.id == o.id) orders ≡ 0
      → o.subtotal ≡ added
      → o.total ≡ o.subtotal - o.discount_amount
      → IsBalanced orders items
      → IsBalanced (orders ++ (o ∷ [])) (items ++ items_of r o.id snaps)
  unfolding count
  create-IsBalanced fresh sub tot h = record {
    linked =
        All-append (IsLinked (orders ++ (o ∷ []))) items (items_of r o.id snaps)
          (All-map (IsLinked orders) (IsLinked (orders ++ (o ∷ []))) items
            (λ i l. omega (arith, count-append (λ (x : Order). x.id == i.order_id) orders (o ∷ [])))
            h.linked)
          (IsLinked-items_of (orders ++ (o ∷ [])) snaps
            (ground (arith, count-append (λ (x : Order). x.id == o.id) orders (o ∷ []))));
    priced =
        All-append (IsPriced (items ++ items_of r o.id snaps)) orders (o ∷ [])
          (old orders (All-absent (λ (x : Order). x.id) o.id orders fresh) h.priced)
          (
            (
              sub
                  ∙ omega
                      (arith, items_total-own, items_total-absent o.id orders items fresh h.linked),
              tot,
            ),
            tt,
          );
  }
    where
      old :
          (xs : List Order)
          → All (λ (x : Order). x.id ≢ o.id) xs
          → All (IsPriced items) xs
          → All (IsPriced (items ++ items_of r o.id snaps)) xs
      old [] a p = tt
      old (x ∷ xs) a p = ((p.0.0 ∙ sym (items_total-others x.id a.0), p.0.1), old xs a.1 p.1)

  -- Items appended to an order that is there, with the update of its sums.
  pub append-IsBalanced :
      (p : Order → Bool) (f : Order → Order)
      → All (λ (x : Order). x.id ≡ o.id → x ≡ o) orders
      → 0 < count (λ (x : Order). x.id == o.id) orders
      → ((x : Order) → p x ≡ true → x.id ≡ o.id)
      → p o ≡ true
      → ((x : Order) → (f x).id ≡ x.id)
      → (f o).subtotal ≡ o.subtotal + added
      → (f o).total ≡ (f o).subtotal - (f o).discount_amount
      → IsBalanced orders items
      → IsBalanced (update_many p f orders) (items ++ items_of r o.id snaps)
  unfolding update_many
  append-IsBalanced p f only here narrow hit same sub tot h = record {
    linked =
        All-append (IsLinked (update_many p f orders)) items (items_of r o.id snaps)
          (All-map (IsLinked orders) (IsLinked (update_many p f orders)) items
            (λ i l.
              rw
                (count-update_many (λ (x : Order). x.id == i.order_id) p f orders
                  (λ x. rw (same x)))
                l)
            h.linked)
          (IsLinked-items_of (update_many p f orders) snaps (
            rw (count-update_many (λ (x : Order). x.id == o.id) p f orders (λ x. rw (same x)))
              here));
    priced = rows orders only h.priced;
  }
    where
      moved : IsPriced items o → IsPriced (items ++ items_of r o.id snaps) (f o)
      moved h = (rw (same o) (omega (arith, sub, h.0, items_total-own)), tot)

      at_row :
          (x : Order)
          → (x.id ≡ o.id → x ≡ o)
          → IsPriced items x
          → IsPriced (items ++ items_of r o.id snaps) (if p x then f x else x)
      at_row x one h = elim (Bool-cases (p x)) [
        | inl e ↦ rw e (
            subst (λ z. IsPriced items z → IsPriced (items ++ items_of r o.id snaps) (f z))
              (sym (one (narrow x e))) moved h)
        | inr e ↦ rw e (
          h.0
              ∙ sym (
                  items_total-others x.id
                    (λ i. absurd (false≢true (sym e ∙ subst (λ z. p z ≡ true) (sym (one i)) hit)))),
          h.1,
        )
      ]

      rows :
          (xs : List Order)
          → All (λ (x : Order). x.id ≡ o.id → x ≡ o) xs
          → All (IsPriced items) xs
          → All (IsPriced (items ++ items_of r o.id snaps)) (update_many p f xs)
      rows [] a h = tt
      rows (x ∷ xs) a h = (at_row x a.0 h.0, rows xs a.1 h.1)
