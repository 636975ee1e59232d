-- ===== src/Model/Enums.antt =====
-- The enums of prisma/schema.prisma that orders, tables, coupons and table sessions use, and the
-- status tests that the queries write as `{ in: [...] }`.
use mathlib.Core.Bool.{Bool, true, false}
use mathlib.Core.Path.{◌≡◌}
use native.Mathlib.Omega.{arith}
use Prim.Native.Nat.{ℕ}
use restaurant_management_ba.Base.{◌==◌}

pub data OrderStatus : Type 0 where
  pending confirmed preparing ready out_for_delivery delivered cancelled : OrderStatus

pub data OrderSource : Type 0 where
  whatsapp qr website cashier phone : OrderSource

pub data OrderType : Type 0 where
  dine_in delivery pickup : OrderType

pub data PaymentStatus : Type 0 where
  pending paid failed refunded : PaymentStatus

pub data PaymentMethod : Type 0 where
  cash card online : PaymentMethod

pub data TableStatus : Type 0 where
  available occupied reserved maintenance : TableStatus

pub data CouponType : Type 0 where
  percentage fixed : CouponType

-- `["PENDING", "CONFIRMED", "PREPARING", "READY"]`: the orders that hold a table, and those that
-- still take items.
abbrev pub is_active : OrderStatus → Bool
is_active OrderStatus.pending = true
is_active OrderStatus.confirmed = true
is_active OrderStatus.preparing = true
is_active OrderStatus.ready = true
is_active _ = false

-- `DELIVERED` or `CANCELLED`
abbrev pub is_terminal : OrderStatus → Bool
is_terminal OrderStatus.delivered = true
is_terminal OrderStatus.cancelled = true
is_terminal _ = false

abbrev pub is_cancelled : OrderStatus → Bool
is_cancelled OrderStatus.cancelled = true
is_cancelled _ = false

abbrev pub is_delivered : OrderStatus → Bool
is_delivered OrderStatus.delivered = true
is_delivered _ = false

-- The place of a status among the constructors, for `===`.
abbrev status_code : OrderStatus → ℕ
status_code OrderStatus.pending = 0
status_code OrderStatus.confirmed = 1
status_code OrderStatus.preparing = 2
status_code OrderStatus.ready = 3
status_code OrderStatus.out_for_delivery = 4
status_code OrderStatus.delivered = 5
status_code OrderStatus.cancelled = 6

abbrev pub same_status : OrderStatus → OrderStatus → Bool
same_status a b = status_code a == status_code b

pub eq_of_same_status : (a b : OrderStatus) → same_status a b ≡ true → a ≡ b
eq_of_same_status a b h = ground arith

pub same_status_self : (a : OrderStatus) → same_status a a ≡ true
same_status_self a = ground arith

abbrev pub is_unpaid : PaymentStatus → Bool
is_unpaid PaymentStatus.pending = true
is_unpaid _ = false

abbrev pub is_paid : PaymentStatus → Bool
is_paid PaymentStatus.paid = true
is_paid _ = false

abbrev pub is_refunded : PaymentStatus → Bool
is_refunded PaymentStatus.refunded = true
is_refunded _ = false

abbrev pub is_qr : OrderSource → Bool
is_qr OrderSource.qr = true
is_qr _ = false
