-- ===== src/Coupons.antt =====
-- src/modules/coupons: the rules of a coupon, its use by an order in a transaction, and their laws.
pub mod Rules
pub mod Apply
pub mod Bounds
pub mod Examples
