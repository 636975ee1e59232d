-- ===== src/Model/Sessions.antt =====
-- The rows of table sessions and of the products that they order, from prisma/schema.prisma.
use Prim.Native.String.{String}
use restaurant_management_ba.Base.{ℕ, Bool, true, false, Option}

pub data SessionStatus : Type 0 where
  active awaiting_confirmation confirmed closed : SessionStatus

pub data SessionOrderStatus : Type 0 where
  awaiting_confirmation confirmed cancelled : SessionOrderStatus

pub data CallStatus : Type 0 where
  pending accepted dismissed : CallStatus

pub data CallType : Type 0 where
  help bill other : CallType

abbrev pub is_open : SessionStatus → Bool
is_open SessionStatus.closed = false
is_open _ = true

abbrev pub is_ordering : SessionStatus → Bool
is_ordering SessionStatus.active = true
is_ordering _ = false

abbrev pub is_awaiting : SessionOrderStatus → Bool
is_awaiting SessionOrderStatus.awaiting_confirmation = true
is_awaiting _ = false

abbrev pub is_confirmed : SessionOrderStatus → Bool
is_confirmed SessionOrderStatus.confirmed = true
is_confirmed _ = false

pub record TableSession : Type 0 where
  pub id : ℕ
  pub restaurant_id : ℕ
  pub branch_id : ℕ
  pub table_id : ℕ
  pub pin_hash : String
  pub pin : Option String
  pub status : SessionStatus
  pub failed_attempts : ℕ
  pub lockout_level : ℕ
  pub lockout_until : Option ℕ
  pub created_by : Option ℕ
  pub confirmed_order_id : Option ℕ
  pub closed_at : Option ℕ

pub record SessionMember : Type 0 where
  pub id : ℕ
  pub session_id : ℕ
  pub name : String

pub record SessionItem : Type 0 where
  pub id : ℕ
  pub session_id : ℕ
  pub session_order_id : Option ℕ
  pub product_id : ℕ
  pub product_name : String
  pub unit_price : ℕ
  pub quantity : ℕ
  pub added_by_name : Option String

pub record SessionOrder : Type 0 where
  pub id : ℕ
  pub session_id : ℕ
  pub order_number : ℕ
  pub status : SessionOrderStatus
  pub total : ℕ
  pub order_id : Option ℕ
  pub confirmed_at : Option ℕ

pub record WaiterCall : Type 0 where
  pub id : ℕ
  pub restaurant_id : ℕ
  pub branch_id : ℕ
  pub session_id : ℕ
  pub table_id : ℕ
  pub member_id : ℕ
  pub requester_name : String
  pub note : Option String
  pub type : CallType
  pub status : CallStatus
  pub accepted_by : Option ℕ
  pub accepted_at : Option ℕ
  pub dismissed_at : Option ℕ

-- `is_enabled` is `status: "ACTIVE"`.
pub record Product : Type 0 where
  pub id : ℕ
  pub restaurant_id : ℕ
  pub name : String
  pub price : ℕ
  pub is_available : Bool
  pub is_enabled : Bool
  pub deleted_at : Option ℕ
