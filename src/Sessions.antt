-- ===== src/Sessions.antt =====
-- src/modules/table-sessions: guests at a table share a session, in which they collect a draft, submit it as a
-- round, and the staff confirm the round into an order.
pub mod Find
pub mod Pin
pub mod Items
pub mod Calls
pub mod Rounds
pub mod Confirm
pub mod Kept
pub mod Alike
pub mod Trace
pub mod Lockout
pub mod Returned
pub mod Seats
pub mod Examples
