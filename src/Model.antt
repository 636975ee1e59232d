-- ===== src/Model.antt =====
-- The database that the services share: enums, rows and the tables of prisma/schema.prisma.
mod Enums
mod Sessions
mod Rows
pub use Enums.*
pub use Sessions.*
pub use Rows.*
