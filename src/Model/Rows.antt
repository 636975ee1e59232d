-- ===== src/Model/Rows.antt =====
-- The rows of the tables that orders read and write (prisma/schema.prisma). Identifiers are numbers,
-- since the code only compares them; money is in cents, as the columns are Decimal(10, 2); an instant
-- is a number of milliseconds. The column updatedAt is left out, and a table lists its rows in the
-- order of their creation.
use Prim.Native.Nat.{ℕ}
use Prim.Native.String.{String}
use mathlib.Core.Bool.{Bool}
use mathlib.Core.Option.{Option}
use mathlib.Core.List.{List}
use restaurant_management_ba.Model.Enums.{
  OrderStatus, OrderSource, OrderType, PaymentStatus, PaymentMethod, TableStatus, CouponType,
}
use restaurant_management_ba.Model.Sessions.{
  Product, TableSession, SessionMember, SessionItem, SessionOrder, WaiterCall,
}

pub record Order : Type 0 where
  pub id : ℕ
  pub order_number : ℕ
  pub order_date : String
  pub restaurant_id : ℕ
  pub branch_id : ℕ
  pub source : OrderSource
  pub type : OrderType
  pub status : OrderStatus
  pub payment_status : PaymentStatus
  pub payment_method : Option PaymentMethod
  pub customer_id : Option ℕ
  pub table_id : Option ℕ
  pub coupon_id : Option ℕ
  pub subtotal : ℕ
  pub discount_amount : ℕ
  pub total : ℕ
  pub notes : Option String
  pub address : Option String
  pub cancel_reason : Option String
  pub paid_at : Option ℕ
  pub paid_by : Option ℕ
  pub refunded_at : Option ℕ
  pub refund_reason : Option String
  pub refunded_by : Option ℕ
  pub version : ℕ

pub record SelectedModifier : Type 0 where
  pub id : ℕ
  pub name : String
  pub price_delta : ℕ
  pub quantity : ℕ

-- What an order says of an item: the snapshot that createOrder takes.
pub record ItemSnapshot : Type 0 where
  pub product_id : ℕ
  pub product_name : String
  pub quantity : ℕ
  pub unit_price : ℕ
  pub subtotal : ℕ
  pub notes : Option String
  pub selected_modifiers : Option (List SelectedModifier)
  pub round : ℕ

pub record OrderItem : Type 0 where
  pub restaurant_id : ℕ
  pub order_id : ℕ
  pub item : ItemSnapshot

-- The texts that the code writes as the reason of a change.
pub data Reason : Type 0 where
  given : String → Reason
  order_created : Reason
  status_updated : OrderStatus → OrderStatus → Reason
  payment_processed : PaymentMethod → Reason
  payment_refunded : String → Reason
  round_added : ℕ → Reason

pub record HistoryEntry : Type 0 where
  pub restaurant_id : ℕ
  pub order_id : ℕ
  pub from_status : Option OrderStatus
  pub to_status : OrderStatus
  pub changed_by : Option ℕ
  pub reason : Reason

pub record RestaurantTable : Type 0 where
  pub id : ℕ
  pub restaurant_id : ℕ
  pub branch_id : ℕ
  pub label : String
  pub capacity : ℕ
  pub status : TableStatus
  pub qr_token : ℕ
  pub deleted_at : Option ℕ

-- `value` is in hundredths: of a percent for PERCENTAGE, of a unit of money for FIXED.
pub record Coupon : Type 0 where
  pub id : ℕ
  pub restaurant_id : ℕ
  pub code : String
  pub type : CouponType
  pub value : ℕ
  pub min_subtotal : ℕ
  pub max_discount : Option ℕ
  pub applicable_product_ids : List ℕ
  pub usage_limit : Option ℕ
  pub times_used : ℕ
  pub starts_at : Option ℕ
  pub expires_at : Option ℕ
  pub is_enabled : Bool
  pub deleted_at : Option ℕ

pub record IdempotencyKey : Type 0 where
  pub restaurant_id : ℕ
  pub key : String
  pub status_code : ℕ
  pub response_order : Order
  pub response_items : List OrderItem
  pub created_at : ℕ

pub record BranchSettings : Type 0 where
  pub branch_id : ℕ
  pub restaurant_id : ℕ
  pub daily_order_start_number : ℕ
  pub timezone : String

pub record Branch : Type 0 where
  pub id : ℕ
  pub restaurant_id : ℕ

pub record Db : Type 0 where
  pub orders : List Order
  pub items : List OrderItem
  pub history : List HistoryEntry
  pub tables : List RestaurantTable
  pub coupons : List Coupon
  pub keys : List IdempotencyKey
  pub branches : List Branch
  pub settings : List BranchSettings
  pub products : List Product
  pub sessions : List TableSession
  pub members : List SessionMember
  pub session_items : List SessionItem
  pub session_orders : List SessionOrder
  pub calls : List WaiterCall

-- Who calls: the restaurant of the caller's token, and the employee if one is signed in.
pub record TenantContext : Type 0 where
  pub restaurant_id : ℕ
  pub employee_id : Option ℕ
