-- ===== src/Customers.antt =====
-- The customers of a restaurant: src/modules/customers/customer.service.js and customer.repository.js,
-- on the tables customers, customer_phones and customer_addresses.
pub mod Rows
pub mod Names
pub mod Change
pub mod Addresses
pub mod Defaults
pub mod Kept
pub mod Settled
pub mod Numbers
pub mod Phones
pub mod Callers
pub mod Again
pub mod Examples
