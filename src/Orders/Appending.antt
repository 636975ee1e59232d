-- ===== src/Orders/Appending.antt =====
-- Appending items to an order keeps what holds of the database.
use mathlib.Core.Path.{subst}
use restaurant_management_ba.Base.{
  ℕ, ◌≡◌, refl, sym, inl, inr, true, some, List, arith, Option-cases, sum_of,
}
use restaurant_management_ba.Model.{Db, Order, ItemSnapshot, TenantContext, is_unpaid, is_active}
use restaurant_management_ba.Store.{
  find_first, find_first_holds, update_many, only_found, count-found_pos, length-update_many,
}
use restaurant_management_ba.Exec.{ok}
use restaurant_management_ba.Orders.Find.{is_order}
use restaurant_management_ba.Orders.Append.{append_items, is_unchanged, add_subtotal}
use restaurant_management_ba.Orders.Growth.{append_ok, append_none}
use restaurant_management_ba.Orders.Evolution.{add_subtotal-Evolves}
use restaurant_management_ba.Orders.Monotone.{id_of, Follows, is_order-id, update-Follows}
use restaurant_management_ba.Orders.Invariant.Balance.{append-IsBalanced}
use restaurant_management_ba.Orders.Invariant.Tables.{evolve-IsSingle}
use restaurant_management_ba.Orders.Invariant.Ledger.{update-IsLedger}
use restaurant_management_ba.Orders.Sound.{IsSound}
use restaurant_management_ba.Orders.Creation.{IsAfter}

module _ (ctx : TenantContext) (b id : ℕ) (items : List ItemSnapshot) (s : Db) (h : IsSound s) where
  module _ (o : Order)
      (found : find_first (is_order ctx.restaurant_id b id) s.orders ≡ some o) where
    abbrev raise : Order → Order
    raise = add_subtotal o (sum_of (λ i. i.subtotal) items)

    same_id : o.id ≡ id
    same_id =
        is_order-id ctx b id o (find_first_holds (is_order ctx.restaurant_id b id) s.orders o found)

    narrow :
        (x : Order)
        → is_unchanged ctx.restaurant_id b o x ≡ true
        → is_order ctx.restaurant_id b id x ≡ true
    narrow x u = subst (λ j. is_order ctx.restaurant_id b j x ≡ true) same_id (ground arith)

    own :
        is_unpaid o.payment_status ≡ true
        → is_active o.status ≡ true
        → is_unchanged ctx.restaurant_id b o o ≡ true
    own u a = self (
        subst (λ j. is_order ctx.restaurant_id b j o ≡ true) (sym same_id)
          (find_first_holds (is_order ctx.restaurant_id b id) s.orders o found))
      where
        self :
            is_order ctx.restaurant_id b o.id o ≡ true → is_unchanged ctx.restaurant_id b o o ≡ true
        self k = ground arith

    forward :
        is_unpaid o.payment_status ≡ true
        → Follows s.orders (update_many (is_unchanged ctx.restaurant_id b o) raise s.orders)
    forward u =
        update-Follows ctx b id (is_unchanged ctx.restaurant_id b o) raise s.orders o h.keyed found
          narrow (λ x. refl) (λ v. add_subtotal-Evolves o (sum_of (λ i. i.subtotal) items) u)

    appended :
        {r : ℕ}
        → (append_items ctx b id items s).0 ≡ ok r
        → IsAfter s (append_items ctx b id items s).1
    appended done =
        let (orders, its, coupons, unpaid, active, _) = append_ok ctx b id items s o found done in
        let follows = forward unpaid in
        record {
          sound = record {
            keyed = rw orders follows.1;
            balanced =
                rw (orders, its)
                  (append-IsBalanced ctx.restaurant_id o items s.orders s.items
                    (is_unchanged ctx.restaurant_id b o) raise
                    (only_found id_of (is_order ctx.restaurant_id b id) s.orders o h.keyed found)
                    (count-found_pos id_of (is_order ctx.restaurant_id b id) s.orders o found)
                    (λ x u. ground arith) (own unpaid active) (λ x. refl) refl refl h.balanced);
            single = rw orders (
                evolve-IsSingle s.orders _
                  (length-update_many (is_unchanged ctx.restaurant_id b o) raise s.orders) follows.0
                  h.single);
            ledger =
                rw (orders, coupons)
                  (update-IsLedger (is_unchanged ctx.restaurant_id b o) raise s.orders s.coupons
                    (λ r c x. refl) h.ledger);
          };
          follows = rw orders follows;
        }

  -- Appending items to an order of a sound database, when it returns, leaves a sound database and takes
  -- every order forward by Evolves.
  pub append_items-IsAfter :
      {r : ℕ}
      → (append_items ctx b id items s).0 ≡ ok r
      → IsAfter s (append_items ctx b id items s).1
  append_items-IsAfter done =
      elim (Option-cases (find_first (is_order ctx.restaurant_id b id) s.orders)) [
        | inl e ↦ absurd (append_none ctx b id items s e done)
        | inr (o, found) ↦ appended o found done
      ]
