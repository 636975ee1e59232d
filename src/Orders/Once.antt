-- ===== src/Orders/Once.antt =====
-- The idempotency key of createOrderInClient: at most one creation succeeds under one key.
use Prim.Native.String.{String}
use mathlib.Core.Path.{subst}
use text.Mathlib.TextPositions.{eq_refl}
use restaurant_management_ba.Base.{
  ℕ, zero, suc, ◌<◌, ◌≡◌, ◌≢◌, refl, sym, Option, none, some, List, [], ◌∷◌, ◌++◌, arith,
  if◌then◌else◌, Bool-cases, inl, inr,
}
use restaurant_management_ba.Model.{
  Db, Order, OrderItem, ItemSnapshot, TenantContext, IdempotencyKey,
}
use restaurant_management_ba.Store.{count, count-append}
use restaurant_management_ba.Exec.{Action, Result, ok, err, transaction, is_unique_violation}
use restaurant_management_ba.Env.{Env}
use restaurant_management_ba.Orders.Find.{is_key}
use restaurant_management_ba.Orders.Create.{
  OrderPayload, Meta, check_table, settle_discount, insert_order, set_table, insert_key, save_key,
  finish_order, create_order_in_client, create_order_transaction, attempts,
}
use restaurant_management_ba.Orders.Growth.{
  created_order, settled_state, check_table_keeps, settle_discount_keeps,
}

-- The restaurant has a row for the key, of any age.
abbrev pub IsTaken : ℕ → String → Db → Type 0
IsTaken r key s = 0 < count (is_key r key) s.keys

check_table_keys : (r b : ℕ) (p : OrderPayload) (s : Db) → (check_table r b p s).1.keys ≡ s.keys
unfolding check_table
check_table_keys r b p s = ground arith

settle_discount_keys :
    (env : Env) (ctx : TenantContext) (p : OrderPayload) (items : List ItemSnapshot) (s : Db)
    → (settle_discount env ctx p items s).1.keys ≡ s.keys
unfolding settle_discount
settle_discount_keys env ctx p items s = ground arith

insert_order_keys : (o : Order) (s : Db) → (insert_order o s).1.keys ≡ s.keys
unfolding insert_order
insert_order_keys o s = ground arith

set_table_keys : (r b : ℕ) (t : Option ℕ) (st : _) (s : Db) → (set_table r b t st s).1.keys ≡ s.keys
unfolding set_table
set_table_keys r b none st s = refl
set_table_keys r b (some t) st s = refl

save_key_taken :
    (env : Env) (r : ℕ) (key : String) (o : Order) (items : List OrderItem) (s : Db)
    → IsTaken r key s
    → (save_key env r (some key) o items s).0 ≢ ok tt
unfolding save_key insert_key
save_key_taken env r key o items s h e = ground arith

insert_key_keys :
    (k : IdempotencyKey) (s : Db)
    → (insert_key k s).0 ≡ ok tt
    → (insert_key k s).1.keys ≡ s.keys ++ (k ∷ [])
unfolding insert_key
insert_key_keys k s e = ground arith

counted_last :
    (k : IdempotencyKey) (ks : List IdempotencyKey)
    → 0 < count (is_key k.restaurant_id k.key) (ks ++ (k ∷ []))
unfolding count
counted_last k ks =
    ground (arith, eq_refl k.key, count-append (is_key k.restaurant_id k.key) ks (k ∷ []))

save_key_takes :
    (env : Env) (r : ℕ) (key : String) (o : Order) (items : List OrderItem) (s : Db)
    → (save_key env r (some key) o items s).0 ≡ ok tt
    → IsTaken r key (save_key env r (some key) o items s).1
unfolding save_key
save_key_takes env r key o items s e = rw (insert_key_keys _ s e) (counted_last _ s.keys)

create_finishes :
    (env : Env) (ctx : TenantContext) (b : ℕ) (p : OrderPayload) (items : List ItemSnapshot)
    (key : Option String) (meta : Meta) (s : Db) {r : Option Order}
    → (create_order_in_client env ctx b p items key meta s).0 ≡ ok r
    → let o = created_order env ctx b p items key meta s in
      create_order_in_client env ctx b p items key meta s
      ≡ finish_order env ctx b o items key
          (record (settled_state env ctx b p items key meta s) { orders = s.orders ++ (o ∷ []) })
unfolding create_order_in_client
create_finishes env ctx b p items key meta s h =
    grind (arith, check_table_keys, check_table_keeps, settle_discount_keeps)

module _ (env : Env) (ctx : TenantContext) (b : ℕ) (key : String) where
  finish_order_taken :
      (o : Order) (items : List ItemSnapshot) (s : Db) {r : Option Order}
      → IsTaken ctx.restaurant_id key s
      → (finish_order env ctx b o items (some key) s).0 ≢ ok r
  unfolding finish_order
  finish_order_taken o items s h e = grind (arith, set_table_keys, save_key_taken)

  finish_order_takes :
      (o : Order) (items : List ItemSnapshot) (s : Db) {r : Option Order}
      → (finish_order env ctx b o items (some key) s).0 ≡ ok r
      → IsTaken ctx.restaurant_id key (finish_order env ctx b o items (some key) s).1
  unfolding finish_order
  finish_order_takes o items s h = grind (arith, save_key_takes)

  module _ (p : OrderPayload) (items : List ItemSnapshot) where
    create_order_in_client_taken :
        (meta : Meta) (s : Db) {r : Option Order}
        → IsTaken ctx.restaurant_id key s
        → (create_order_in_client env ctx b p items (some key) meta s).0 ≢ ok r
    unfolding create_order_in_client
    create_order_in_client_taken meta s h e =
        grind (arith, check_table_keys, settle_discount_keys, insert_order_keys, finish_order_taken)

    create_order_in_client_takes :
        (meta : Meta) (s : Db) {r : Option Order}
        → (create_order_in_client env ctx b p items (some key) meta s).0 ≡ ok r
        → IsTaken ctx.restaurant_id key
            (create_order_in_client env ctx b p items (some key) meta s).1
    create_order_in_client_takes meta s h =
        let e = create_finishes env ctx b p items (some key) meta s h in
        rw e (finish_order_takes _ items _ (rw e at h))

module _ {A : Type 0} (P : Db → Type 0) where
  rolled_back_fails :
      (s : Db) (x : Result A × Db)
      → ((a : A) → x.0 ≢ ok a)
      → (a : A)
      → (elim x.0 as (λ _. Result A × Db) [ ok a ↦ (ok a, x.1) | err e ↦ (err e, s) ]).0 ≢ ok a
  rolled_back_fails s (ok b, t) h a = absurd (h b refl)
  rolled_back_fails s (err e, t) h a = λ k. ground arith

  retried_fails :
      (x again : Result A × Db)
      → ((a : A) → x.0 ≢ ok a)
      → ((a : A) → again.0 ≢ ok a)
      → (a : A)
      → (elim x.0 as (λ _. Result A × Db) [
        | ok a ↦ (ok a, x.1)
        | err e ↦ if is_unique_violation e then again else (err e, x.1)
      ]).0
        ≢ ok a
  retried_fails (ok b, t) again h k a = absurd (h b refl)
  retried_fails (err e, t) again h k a = elim (Bool-cases (is_unique_violation e)) [
    | inl y ↦ rw y (k a)
    | inr n ↦ rw n (λ z. ground arith)
  ]

  -- A body that cannot return where P holds never returns in the loop, if others keep P.
  attempts_fail :
      (between : ℕ → Db → Db) (body : Action A)
      → ((n : ℕ) (t : Db) → P t → P (between n t))
      → ((t : Db) (a : A) → P t → (body t).0 ≢ ok a)
      → (n : ℕ) (s : Db) → P s
      → (a : A) → (attempts n between body s).0 ≢ ok a
  unfolding attempts transaction
  attempts_fail between body others fails zero s h = rolled_back_fails s (body s) (λ a. fails s a h)
  attempts_fail between body others fails (suc n) s h =
      retried_fails (transaction body s) (attempts n between body (between n s))
        (rolled_back_fails s (body s) (λ a. fails s a h))
        (attempts_fail between body others fails n (between n s) (others n s h))

  rolled_back_makes :
      (s : Db) (x : Result A × Db)
      → ((a : A) → x.0 ≡ ok a → P x.1)
      → let y = elim x.0 as (λ _. Result A × Db) [ ok a ↦ (ok a, x.1) | err e ↦ (err e, s) ] in
        (a : A) → y.0 ≡ ok a → P y.1
  rolled_back_makes s (ok b, t) h a k = h b refl
  rolled_back_makes s (err e, t) h a k = absurd (ground arith)

  retried_makes :
      (x again : Result A × Db)
      → ((a : A) → x.0 ≡ ok a → P x.1)
      → ((a : A) → again.0 ≡ ok a → P again.1)
      → let y = elim x.0 as (λ _. Result A × Db) [
        | ok a ↦ (ok a, x.1)
        | err e ↦ if is_unique_violation e then again else (err e, x.1)
      ] in
        (a : A) → y.0 ≡ ok a → P y.1
  retried_makes (ok b, t) again h k a z = h b refl
  retried_makes (err e, t) again h k a z = elim (Bool-cases (is_unique_violation e)) [
    | inl y ↦ rw y (k a (rw y at z))
    | inr n ↦ absurd (ground arith)
  ]

  -- What every return of the body makes true is true when the loop returns.
  attempts_make :
      (between : ℕ → Db → Db) (body : Action A)
      → ((t : Db) (a : A) → (body t).0 ≡ ok a → P (body t).1)
      → (n : ℕ) (s : Db) (a : A) → (attempts n between body s).0 ≡ ok a
      → P (attempts n between body s).1
  unfolding attempts transaction
  attempts_make between body makes zero s = rolled_back_makes s (body s) (makes s)
  attempts_make between body makes (suc n) s =
      retried_makes (transaction body s) (attempts n between body (between n s))
        (rolled_back_makes s (body s) (makes s)) (attempts_make between body makes n (between n s))

-- A creation that returns under an idempotency key takes the key for good: no later creation of the
-- restaurant under that key returns, by whichever employee and for whichever branch and order, as long as
-- nothing removes the key's row before it starts or between its attempts.
pub create_order_transaction_once :
    (env : Env) (between : ℕ → Db → Db) (ctx : TenantContext) (b : ℕ) (p : OrderPayload)
    (items : List ItemSnapshot) (key : String) (s : Db) (o : Option Order) (env' : Env)
    (between' : ℕ → Db → Db) (ctx' : TenantContext) (b' : ℕ) (p' : OrderPayload)
    (items' : List ItemSnapshot) (t : Db) (o' : Option Order)
    → (create_order_transaction env between ctx b p items (some key) s).0 ≡ ok o
    → ctx'.restaurant_id ≡ ctx.restaurant_id
    → (IsTaken ctx.restaurant_id key
          (create_order_transaction env between ctx b p items (some key) s).1
        → IsTaken ctx.restaurant_id key t)
    → ((n : ℕ) (u : Db)
        → IsTaken ctx.restaurant_id key u
        → IsTaken ctx.restaurant_id key (between' n u))
    → (create_order_transaction env' between' ctx' b' p' items' (some key) t).0 ≢ ok o'
unfolding create_order_transaction
create_order_transaction_once env between ctx b p items key s o env' between' ctx' b' p' items' t o'
      h same kept others =
    attempts_fail (IsTaken ctx.restaurant_id key) between' _ others
      (λ u a k.
        create_order_in_client_taken env' ctx' b' key p' items' _ u
          (subst (λ r. IsTaken r key u) (sym same) k))
      2 t
      (kept (
        attempts_make (IsTaken ctx.restaurant_id key) between _
          (λ u a k. create_order_in_client_takes env ctx b key p items _ u k) 2 s o h))
      o'
