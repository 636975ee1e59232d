-- ===== src/Store.antt =====
-- The queries of the source over one table: findFirst, updateMany and count with a `where`, as
-- functions of the rows in their order of creation.
mod Queries
mod Laws
mod Keyed
mod Counts
unfoldable pub use Queries.*
pub use Laws.*
pub use Keyed.*
pub use Counts.*
