-- ===== src/Paging.antt =====
-- src/shared/utils/pagination.js: the pages of a list.
pub mod Offsets
mod Slices
mod Ceiling
pub mod Covered
mod Examples
