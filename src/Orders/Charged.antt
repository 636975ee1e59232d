-- ===== src/Orders/Charged.antt =====
-- The prices of createOrder against a plain reading of the tables: an item costs its product, and every
-- modifier of the product that it selects and that is not deleted.
use restaurant_management_ba.Base.{
  ℕ, ◌+◌, ◌*◌, ◌≡◌, refl, sym, ap, ◌∙◌, true, not, ◌&&◌, some, List, [], ◌∷◌, ◌==◌, arith, All,
  sum_of, inl, inr, Option-cases, is_some, if◌then◌else◌,
}
use mathlib.Core.Path.{subst}
use restaurant_management_ba.Model.{Product, ItemSnapshot}
use restaurant_management_ba.Store.{find_first, find_many}
use restaurant_management_ba.Exec.{Result-cases, ok}
use restaurant_management_ba.Orders.Pricing.{
  ProductModifier, Selection, ItemInput, modifier_selection, selects, some_selects, is_offered,
  is_orderable, modifier_quantity, is_chosen, price_modifiers, price_item, price_items,
  all_modifiers,
}
use restaurant_management_ba.Orders.Place.{World, price_order}

-- What a row of the modifiers adds to the price of an item of a product.
abbrev pub charge : ℕ → ℕ → List Selection → ProductModifier → ℕ
charge restaurant product ss m =
    if m.restaurant_id == restaurant
      && m.product_id == product
      && not (is_some m.deleted_at)
      && selects ss m.id
    then m.price_delta * modifier_quantity ss m
    else 0

-- The snapshot of an item, from the rows of the products and the modifiers.
abbrev pub IsCharged : ℕ → List Product → List ProductModifier → ItemInput → ItemSnapshot → Type 0
IsCharged restaurant products ms i s =
    (p : Product) × (find_first (λ x. x.id == i.product_id && is_orderable restaurant x) products
      ≡ some p)
    × (s.product_id ≡ p.id)
    × (s.quantity ≡ i.quantity)
    × (s.unit_price ≡ p.price + sum_of (charge restaurant p.id (modifier_selection i)) ms)
    × (s.subtotal ≡ s.unit_price * i.quantity)

abbrev pub Pairs : (ItemInput → ItemSnapshot → Type 0) → List ItemInput → List ItemSnapshot → Type 0
Pairs R [] [] = Unit
Pairs R [] (s ∷ ss) = ⊥
Pairs R (i ∷ is) [] = ⊥
Pairs R (i ∷ is) (s ∷ ss) = R i s × Pairs R is ss

-- The two filters, one for the request and one for the item, leave the modifiers that count.
charged :
    (restaurant product : ℕ) (all : List ItemInput) (ss : List Selection)
    (ms : List ProductModifier)
    → ((id : ℕ) → selects ss id ≡ true → some_selects all id ≡ true)
    → (price_modifiers ss
        (find_many (is_chosen product ss) (find_many (is_offered restaurant all) ms))).0
      ≡ sum_of (charge restaurant product ss) ms
unfolding price_modifiers find_many
charged restaurant product all ss [] h = refl
charged restaurant product all ss (m ∷ ms) h =
    ground (arith, h m.id, charged restaurant product all ss ms h)

-- What an item selects, some item of the request selects.
abbrev Covered : List ItemInput → ItemInput → Type 0
Covered all i = (id : ℕ) → selects (modifier_selection i) id ≡ true → some_selects all id ≡ true

covered :
    (is : List ItemInput)
    → (all : List ItemInput) → ((id : ℕ) → some_selects is id ≡ true → some_selects all id ≡ true)
    → All (Covered all) is
covered [] all h = tt
covered (i ∷ is) all h = (λ id e. h id (ground arith), covered is all (λ id e. h id (ground arith)))

ok_path : {A : Type 0} (a b : A) → ok a ≡ ok b → a ≡ b
ok_path a b h = cc

module _ (restaurant : ℕ) (products : List Product) (ms : List ProductModifier)
    (all : List ItemInput) where
  abbrev offered : List ProductModifier
  offered = find_many (is_offered restaurant all) ms

  -- What the loop returns is the sum, with a snapshot for each item.
  abbrev IsPricing : List ItemInput → ℕ × List ItemSnapshot → Type 0
  IsPricing is v =
      (v.0 ≡ sum_of (λ s. s.subtotal) v.1) × Pairs (IsCharged restaurant products ms) is v.1

  item-IsCharged :
      (i : ItemInput) (p : Product)
      → Covered all i
      → find_first (λ x. x.id == i.product_id && is_orderable restaurant x) products ≡ some p
      → IsCharged restaurant products ms i (price_item offered p i)
  unfolding price_item
  item-IsCharged i p c f = (
    p,
    f,
    refl,
    refl,
    ap (λ n. p.price + n) (charged restaurant p.id all (modifier_selection i) ms c),
    refl,
  )

  price_items-IsPricing :
      (is : List ItemInput) (v : ℕ × List ItemSnapshot)
      → All (Covered all) is
      → price_items restaurant products offered is ≡ ok v
      → IsPricing is v
  unfolding price_items
  price_items-IsPricing [] v c h = subst (IsPricing []) (ok_path (0, []) v h) (refl, tt)
  price_items-IsPricing (i ∷ is) v c h =
      elim (Option-cases
        (find_first (λ x. x.id == i.product_id && is_orderable restaurant x) products)) [
          | inl n ↦ absurd (ground (arith, h, n))
          | inr (p, f) ↦ elim (Result-cases (price_items restaurant products offered is)) [
            | inr (e, m) ↦ absurd (ground (arith, h, f, m))
            | inl (u, m) ↦
                let s = price_item offered p i in
                let out : price_items restaurant products offered (i ∷ is)
                    ≡ ok (s.subtotal + u.0, s ∷ u.1) =
                  rw (price_items, f, m) refl in
                let rest = price_items-IsPricing is u c.1 m in
                subst (IsPricing (i ∷ is)) (ok_path (s.subtotal + u.0, s ∷ u.1) v (sym out ∙ h))
                  (ap (λ k. s.subtotal + k) rest.0, (item-IsCharged i p c.0 f, rest.1))
          ]
        ]

-- A pricing that returns gives one snapshot for each item, in order, whose product is the one that the
-- item names among those of the restaurant that can be ordered, whose unit price is the product's price
-- with every selected modifier of the product that is not deleted, each once times its quantity, and
-- whose subtotal is the unit price times the quantity; and it gives the sum of the subtotals.
pub price_order-IsCharged :
    (restaurant : ℕ) (items : List ItemInput) (w : World) (subtotal : ℕ)
    (snapshots : List ItemSnapshot)
    → price_order restaurant items w ≡ ok (subtotal, snapshots)
    → (subtotal ≡ sum_of (λ s. s.subtotal) snapshots)
      × Pairs (IsCharged restaurant w.db.products w.modifiers) items snapshots
unfolding price_order all_modifiers
price_order-IsCharged restaurant items w subtotal snapshots h =
    price_items-IsPricing restaurant w.db.products w.modifiers items items (subtotal, snapshots)
      (covered items items (λ id e. e)) h
