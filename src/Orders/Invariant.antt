-- ===== src/Orders/Invariant.antt =====
-- What holds of the database between two requests on orders.
pub mod Balance
pub mod Tables
pub mod Ledger
