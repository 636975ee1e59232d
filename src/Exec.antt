-- ===== src/Exec.antt =====
-- Calls with state and exceptions: src/shared/errors/domain-errors.js, and prisma.$transaction. A thrown
-- error leaves the writes that were made before it, unless they were made in a transaction.
use Prim.Native.String.{String}
use restaurant_management_ba.Base.{
  ℕ, ◌≡◌, ◌⊎◌, inl, inr, refl, ap, Bool, true, false, Option, none, some, if◌then◌else◌,
}
use mathlib.Core.Path.{subst}
use restaurant_management_ba.Model.{OrderStatus, OrderType, Db}

-- The messages, with the values that they show.
pub data Message : Type 0 where
  order_missing branch_missing coupon_missing : Message
  terminal_state not_cancellable not_appendable : OrderStatus → Message
  invalid_transition : OrderStatus → OrderStatus → OrderType → Message
  use_cancel_endpoint reason_required modified_elsewhere : Message
  order_cancelled already_paid already_refunded wrong_amount not_paid append_to_paid : Message
  table_busy : ℕ → Message
  coupon_inactive coupon_early coupon_expired coupon_used_up coupon_not_applicable : Message
  coupon_minimum : ℕ → Message
  table_missing session_missing no_active_session session_exists session_closed : Message
  session_not_open not_in_open_state cart_empty nothing_awaiting empty_order : Message
  already_confirmed order_unpaid item_missing item_confirmed product_unavailable : Message
  call_active call_missing call_accepted : Message
  locked_out wrong_pin : ℕ → Message
  product_missing : ℕ → Message
  -- a text as it stands in the source, and one with a value put into it
  said : String → Message
  said_of : String → String → Message

-- The classes of errors; `unique_violation` is the database's own, with code P2002.
pub data Error : Type 0 where
  not_found business_rule conflict validation authorization authentication : Message → Error
  unique_violation : Error
  -- a field of null was read
  type_error : Error

pub data Result (A : Type 0) : Type 0 where
  ok : A → Result A
  err : Error → Result A

-- A call that works on the state `S`.
abbrev pub On : Type 0 → Type 0 → Type 0
On S A = S → Result A × S

abbrev pub Action : Type 0 → Type 0
Action = On Db

abbrev pub pure : {S A : Type 0} → A → On S A
pure a s = (ok a, s)

abbrev pub throw : {S A : Type 0} → Error → On S A
throw e s = (err e, s)

abbrev pub gets : {S A : Type 0} → (S → A) → On S A
gets f s = (ok (f s), s)

abbrev pub modify : {S : Type 0} → (S → S) → On S (Unit {0})
modify f s = (ok tt, f s)

-- `if (!x) throw e`
abbrev pub or_throw : {S A : Type 0} → Option A → Error → On S A
or_throw none e = throw e
or_throw (some a) e = pure a

-- `if (test) throw e`
abbrev pub throw_if : {S : Type 0} → Bool → Error → On S (Unit {0})
throw_if test e s = (if test then err e else ok tt, s)

-- A pure check that throws.
abbrev pub check : {S A : Type 0} → Result A → On S A
check r s = (r, s)

infixl 5 ◌>>=◌ ◌>>◌
abbrev pub ◌>>=◌ : {S A B : Type 0} → On S A → (A → On S B) → On S B
◌>>=◌ m f s = let (r, s') = m s in elim r [ ok a ↦ f a s' | err e ↦ throw e s' ]

abbrev pub ◌>>◌ : {S A B : Type 0} → On S A → On S B → On S B
m >> k = m >>= λ _. k

-- `if (test) await m`
abbrev pub when : {S : Type 0} → Bool → On S (Unit {0}) → On S (Unit {0})
when true m = m
when false m = pure tt

-- `prisma.$transaction`: all the writes of a body that returns, none of one that throws.
unfoldable pub transaction : {S A : Type 0} → On S A → On S A
transaction m s = let (r, s') = m s in elim r [ ok a ↦ (ok a, s') | err e ↦ (err e, s) ]

-- `error?.code === "P2002"`
abbrev pub is_unique_violation : Error → Bool
is_unique_violation unique_violation = true
is_unique_violation _ = false

-- `try { return await m } catch (error) { if (error?.code === "P2002") { return await k } throw error }`;
-- `k` starts where `m` left the state.
abbrev pub on_violation : {S A : Type 0} → On S A → On S A → On S A
on_violation m k s =
    let (r, s') = m s in
    elim r [ ok a ↦ (ok a, s') | err e ↦ if is_unique_violation e then k s' else (err e, s') ]

-- What a sequence of calls does, by what its first call does, and what a transaction does.
module _ {S A B : Type 0} where
  pub bind_ok :
      (m : On S A) (f : A → On S B) (s s' : S) (a : A) → m s ≡ (ok a, s') → (m >>= f) s ≡ f a s'
  bind_ok m f s s' a e =
      ap (λ x. elim x.0 as (λ _. Result B × S) [ ok v ↦ f v x.1 | err w ↦ (err w, x.1) ]) e

  pub bind_err :
      (m : On S A) (f : A → On S B) (s s' : S) (w : Error)
      → m s ≡ (err w, s')
      → (m >>= f) s ≡ (err w, s')
  bind_err m f s s' w e =
      ap (λ x. elim x.0 as (λ _. Result B × S) [ ok v ↦ f v x.1 | err w' ↦ (err w', x.1) ]) e

module _ {S A : Type 0} where
  pub on_violation_ok :
      (m k : On S A) (s s' : S) (a : A) → m s ≡ (ok a, s') → on_violation m k s ≡ (ok a, s')
  on_violation_ok m k s s' a e =
      ap
        (λ x. elim x.0 as (λ _. Result A × S) [
          | ok v ↦ (ok v, x.1)
          | err w ↦ if is_unique_violation w then k x.1 else (err w, x.1)
        ])
        e

  pub on_violation_err :
      (m k : On S A) (s s' : S) → m s ≡ (err unique_violation, s') → on_violation m k s ≡ k s'
  on_violation_err m k s s' e =
      ap
        (λ x. elim x.0 as (λ _. Result A × S) [
          | ok v ↦ (ok v, x.1)
          | err w ↦ if is_unique_violation w then k x.1 else (err w, x.1)
        ])
        e

  pub transaction_ok :
      (m : On S A) (s s' : S) (a : A) → m s ≡ (ok a, s') → transaction m s ≡ (ok a, s')
  unfolding transaction
  transaction_ok m s s' a e =
      ap (λ x. elim x.0 as (λ _. Result A × S) [ ok v ↦ (ok v, x.1) | err w ↦ (err w, s) ]) e

  pub transaction_err :
      (m : On S A) (s s' : S) (w : Error) → m s ≡ (err w, s') → transaction m s ≡ (err w, s)
  unfolding transaction
  transaction_err m s s' w e =
      ap (λ x. elim x.0 as (λ _. Result A × S) [ ok v ↦ (ok v, x.1) | err w' ↦ (err w', s) ]) e

-- What holds however a sequence of calls ends: by the cases of its first call.
pub bind_rule :
    {S A B : Type 0} (P : Result B × S → Type 0) (m : On S A) (f : A → On S B) (s : S)
    → ((a : A) (s' : S) → m s ≡ (ok a, s') → P (f a s'))
    → ((w : Error) (s' : S) → m s ≡ (err w, s') → P (err w, s'))
    → P ((m >>= f) s)
bind_rule {S} {A} {B} P m f s h k = go (m s) refl
  where
    go :
        (x : Result A × S)
        → m s ≡ x
        → P (elim x.0 as (λ _. Result B × S) [ ok a ↦ f a x.1 | err w ↦ (err w, x.1) ])
    go (ok a, s') e = h a s' e
    go (err w, s') e = k w s' e

-- A value that is returned after a call does not bear on the state.
pub then_pure :
    {S A B : Type 0} (Q : S → Type 0) (m : On S A) (v : B) (s : S)
    → Q (m s).1
    → Q ((m >>= λ _. pure v) s).1
then_pure Q m v s q =
    bind_rule (λ o. Q o.1) m (λ _. pure v) s (λ a s' e. subst (λ o. Q o.1) e q)
      (λ w s' e. subst (λ o. Q o.1) e q)

pub Result-cases :
    {A : Type 0} (r : Result A) → ((a : A) × (r ≡ ok a)) ⊎ ((e : Error) × (r ≡ err e))
Result-cases (ok a) = inl (a, refl)
Result-cases (err e) = inr (e, refl)
