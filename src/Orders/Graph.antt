-- ===== src/Orders/Graph.antt =====
-- The diagram of order statuses, as a relation, and how far along it a status stands.
use mathlib.Core.Path.{subst}
use mathlib.Core.Bool.{false≢true}
use native.Mathlib.Nat.{le_refl}
use restaurant_management_ba.Base.{
  ℕ, ◌≤◌, ◌<◌, ◌≡◌, refl, sym, ◌∙◌, ◌≢◌, ◌⊎◌, ◌↔◌, inl, inr, true, false, arith,
}
use restaurant_management_ba.Model.{
  OrderStatus, OrderType, PaymentStatus, is_terminal, is_cancelled, eq_of_same_status,
  same_status_self,
}
use restaurant_management_ba.Exec.{ok}
use restaurant_management_ba.Orders.Transitions.{validate_transition, allows}

-- One step forward; cancellation is apart.
pub data Next (type : OrderType) : OrderStatus → OrderStatus → Type 0 where
  confirm : Next type OrderStatus.pending OrderStatus.confirmed
  prepare : Next type OrderStatus.confirmed OrderStatus.preparing
  finish : Next type OrderStatus.preparing OrderStatus.ready
  dispatch : type ≡ OrderType.delivery → Next type OrderStatus.ready OrderStatus.out_for_delivery
  serve : type ≢ OrderType.delivery → Next type OrderStatus.ready OrderStatus.delivered
  arrive : Next type OrderStatus.out_for_delivery OrderStatus.delivered

ruleset edges = (confirm, prepare, finish, dispatch, serve, arrive)

Next-allows : (t : OrderType) (a b : OrderStatus) → Next t a b → allows t a b ≡ true
unfolding allows
Next-allows t a b confirm = refl
Next-allows t a b prepare = refl
Next-allows t a b finish = refl
Next-allows t a b (dispatch e) = ground arith
Next-allows t a b (serve e) = ground arith
Next-allows t a b arrive = refl

allows-Next : (t : OrderType) (a b : OrderStatus) → allows t a b ≡ true → Next t a b
unfolding allows
allows-Next t a b h = grind (arith, edges)

Next-live : (t : OrderType) (a b : OrderStatus) → Next t a b → is_terminal a ≡ false
Next-live t a b confirm = refl
Next-live t a b prepare = refl
Next-live t a b finish = refl
Next-live t a b (dispatch e) = refl
Next-live t a b (serve e) = refl
Next-live t a b arrive = refl

accepted :
    (a b : OrderStatus) (t : OrderType)
    → validate_transition a b t ≡ ok tt
    → (a ≡ b) ⊎ (allows t a b ≡ true)
unfolding validate_transition
accepted a b t h = ground (arith, eq_of_same_status a b)

accepts :
    (a b : OrderStatus) (t : OrderType)
    → is_terminal a ≡ false
    → allows t a b ≡ true
    → validate_transition a b t ≡ ok tt
unfolding validate_transition
accepts a b t h k = ground arith

accepts_same : (a : OrderStatus) (t : OrderType) → validate_transition a a t ≡ ok tt
unfolding validate_transition
accepts_same a t = rw (same_status_self a)

-- A change of status is accepted exactly when the status stays the same or makes one step of Next:
-- pending, confirmed, preparing, ready, then delivered, where only a delivery order goes out for
-- delivery in between.
pub validate_transition_iff :
    (a b : OrderStatus) (t : OrderType)
    → (validate_transition a b t ≡ ok tt) ↔ ((a ≡ b) ⊎ Next t a b)
validate_transition_iff a b t = (
  λ h. elim (accepted a b t h) [ inl e ↦ inl e | inr e ↦ inr (allows-Next t a b e) ],
  elim [
    | inl e ↦ subst (λ c. validate_transition a c t ≡ ok tt) e (accepts_same a t)
    | inr n ↦ accepts a b t (Next-live t a b n) (Next-allows t a b n)
  ],
)

-- How far an order has come.
abbrev pub rank : OrderStatus → ℕ
rank OrderStatus.pending = 0
rank OrderStatus.confirmed = 1
rank OrderStatus.preparing = 2
rank OrderStatus.ready = 3
rank OrderStatus.out_for_delivery = 4
rank OrderStatus.delivered = 5
rank OrderStatus.cancelled = 6

abbrev pub pay_rank : PaymentStatus → ℕ
pay_rank PaymentStatus.pending = 0
pay_rank PaymentStatus.failed = 3
pay_rank PaymentStatus.paid = 1
pay_rank PaymentStatus.refunded = 2

pub rank-Next : (t : OrderType) (a b : OrderStatus) → Next t a b → rank a < rank b
rank-Next t a b confirm = omega arith
rank-Next t a b prepare = omega arith
rank-Next t a b finish = omega arith
rank-Next t a b (dispatch e) = omega arith
rank-Next t a b (serve e) = omega arith
rank-Next t a b arrive = omega arith

-- What one request may do to a status.
abbrev pub Change : OrderType → OrderStatus → OrderStatus → Type 0
Change t a b = (a ≡ b) ⊎ Next t a b ⊎ ((is_terminal a ≡ false) × (b ≡ OrderStatus.cancelled))

rank-cancelled : (a : OrderStatus) → rank a ≤ rank OrderStatus.cancelled
rank-cancelled a = ground arith

pub rank-Change : (t : OrderType) (a b : OrderStatus) → Change t a b → rank a ≤ rank b
rank-Change t a b (inl e) = rw e (le_refl _)
rank-Change t a b (inr (inl n)) = omega (arith, rank-Next t a b n)
rank-Change t a b (inr (inr (l, e))) = rw e (rank-cancelled a)

pub ended-Change : (t : OrderType) (a b : OrderStatus) → Change t a b → is_terminal a ≡ true → b ≡ a
ended-Change t a b (inl e) h = sym e
ended-Change t a b (inr (inl n)) h = absurd (false≢true (sym (Next-live t a b n) ∙ h))
ended-Change t a b (inr (inr (l, e))) h = absurd (false≢true (sym l ∙ h))

pub live-Change :
    (t : OrderType) (a b : OrderStatus)
    → Change t a b
    → is_cancelled b ≡ false
    → is_cancelled a ≡ false
live-Change t a b c h = ground (arith, ended-Change t a b c)

pub valid-Change :
    (t : OrderType) (a b : OrderStatus) → validate_transition a b t ≡ ok tt → Change t a b
valid-Change t a b h = elim ((validate_transition_iff a b t).0 h) [
  | inl e ↦ inl e
  | inr n ↦ inr (inl n)
]
