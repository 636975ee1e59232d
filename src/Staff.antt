-- ===== src/Staff.antt =====
-- The people who work at a restaurant: src/modules/auth, src/modules/employees, src/modules/roles and
-- src/shared/middleware/require-branch-access.js.
pub mod Rows
pub mod Access
pub mod Login
pub mod Employees
pub mod Roles
pub mod Devices
pub mod Ended
pub mod Cached
pub mod Coherent
pub mod Regranted
pub mod Served
pub mod Uncached
pub mod Scenario
pub mod Examples
