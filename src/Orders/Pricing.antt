-- ===== src/Orders/Pricing.antt =====
-- How createOrder of src/modules/orders/order.service.js prices the items of a request, with the rows of
-- product_modifiers.
use Prim.Native.String.{String}
use restaurant_management_ba.Base.{
  ℕ, ◌+◌, ◌*◌, Bool, false, not, ◌&&◌, ◌||◌, Option, none, some, List, [], ◌∷◌, map, ◌==◌, is_some,
  filled, if◌then◌else◌, min, max,
}
use restaurant_management_ba.Model.{Product, ItemSnapshot, SelectedModifier}
use restaurant_management_ba.Store.{find_first, find_many}
use restaurant_management_ba.Exec.{Result, ok, err, not_found, product_missing}

pub data QuantityMode : Type 0 where
  single quantity : QuantityMode

pub record ProductModifier : Type 0 where
  pub id : ℕ
  pub restaurant_id : ℕ
  pub product_id : ℕ
  pub name : String
  pub price_delta : ℕ
  pub is_required : Bool
  pub quantity_mode : QuantityMode
  pub max_quantity : ℕ
  pub deleted_at : Option ℕ

-- `{ modifierId, quantity }` of an item, and an item of a request.
pub record Selection : Type 0 where
  pub modifier_id : ℕ
  pub quantity : ℕ

pub record ItemInput : Type 0 where
  pub product_id : ℕ
  pub quantity : ℕ
  pub modifiers : List Selection
  pub modifier_ids : List ℕ
  pub notes : Option String
  pub round : Option ℕ

-- `modifierSelection`
abbrev pub modifier_selection : ItemInput → List Selection
modifier_selection i = elim i.modifiers [
  | [] ↦ map (λ m. record { modifier_id = m; quantity = 1 }) i.modifier_ids
  | x ∷ xs ↦ i.modifiers
]

-- `selectedIds.has(id)`
abbrev pub selects : List Selection → ℕ → Bool
selects [] id = false
selects (s ∷ ss) id = s.modifier_id == id || selects ss id

-- A modifier that some item of the request selects.
abbrev pub some_selects : List ItemInput → ℕ → Bool
some_selects [] id = false
some_selects (i ∷ is) id = selects (modifier_selection i) id || some_selects is id

-- `allModifiers`
abbrev pub is_offered : ℕ → List ItemInput → ProductModifier → Bool
is_offered restaurant is m =
    some_selects is m.id && m.restaurant_id == restaurant && not (is_some m.deleted_at)

unfoldable pub all_modifiers : ℕ → List ItemInput → List ProductModifier → List ProductModifier
all_modifiers restaurant is ms = find_many (is_offered restaurant is) ms

-- The rows of `products` that an item may name.
abbrev pub is_orderable : ℕ → Product → Bool
is_orderable restaurant p =
    p.restaurant_id == restaurant && p.is_available && p.is_enabled && not (is_some p.deleted_at)

-- `Number(selection?.quantity) || 1`
abbrev asked : Option Selection → ℕ
asked none = 1
asked (some s) = if s.quantity == 0 then 1 else s.quantity

abbrev pub most : ProductModifier → ℕ
most m = elim m.quantity_mode [ QuantityMode.quantity ↦ m.max_quantity | QuantityMode.single ↦ 1 ]

-- How many times a modifier is charged for an item.
unfoldable pub modifier_quantity : List Selection → ProductModifier → ℕ
modifier_quantity ss m = min (max 1 (asked (find_first (λ s. s.modifier_id == m.id) ss))) (most m)

unfoldable pub selected_modifier : List Selection → ProductModifier → SelectedModifier
unfolding modifier_quantity
selected_modifier ss m = record {
  id = m.id;
  name = m.name;
  price_delta = m.price_delta;
  quantity = modifier_quantity ss m;
}

-- `modifiers` of an item's product.
abbrev pub is_chosen : ℕ → List Selection → ProductModifier → Bool
is_chosen product ss m = m.product_id == product && selects ss m.id

-- The loop over an item's modifiers: `modifiersTotal` and `selectedModifiersList`.
unfoldable pub price_modifiers : List Selection → List ProductModifier → ℕ × List SelectedModifier
unfolding selected_modifier
price_modifiers ss [] = (0, [])
price_modifiers ss (m ∷ ms) =
    let (total, list) = price_modifiers ss ms in
    (m.price_delta * modifier_quantity ss m + total, selected_modifier ss m ∷ list)

abbrev pub or_null : List SelectedModifier → Option (List SelectedModifier)
or_null [] = none
or_null (m ∷ ms) = some (m ∷ ms)

-- `itemInput.round || 1`
abbrev round_of : Option ℕ → ℕ
round_of none = 1
round_of (some n) = if n == 0 then 1 else n

unfoldable pub price_item : List ProductModifier → Product → ItemInput → ItemSnapshot
unfolding price_modifiers
price_item offered p i =
    let ss = modifier_selection i in
    let (total, list) = price_modifiers ss (find_many (is_chosen p.id ss) offered) in
    record {
      product_id = p.id;
      product_name = p.name;
      quantity = i.quantity;
      unit_price = p.price + total;
      subtotal = (p.price + total) * i.quantity;
      notes = filled i.notes;
      selected_modifiers = or_null list;
      round = round_of i.round;
    }

-- The loop over the items: `calculatedSubtotal` and `itemSnapshots`.
unfoldable pub price_items :
    ℕ → List Product → List ProductModifier → List ItemInput → Result (ℕ × List ItemSnapshot)
unfolding price_item
price_items restaurant products offered [] = ok (0, [])
price_items restaurant products offered (i ∷ is) =
    let rest = price_items restaurant products offered is in
    elim (find_first (λ p. p.id == i.product_id && is_orderable restaurant p) products) [
      | none ↦ err (not_found (product_missing i.product_id))
      | some p ↦ elim rest [
        | err e ↦ err e
        | ok (subtotal, snapshots) ↦
            let s = price_item offered p i in ok (s.subtotal + subtotal, s ∷ snapshots)
      ]
    ]
