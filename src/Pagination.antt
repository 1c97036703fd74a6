-- ===== src/Pagination.antt =====
-- Package infra/pagination.
pub mod Filter
pub mod Types
pub mod Options
pub mod Pager
pub mod Query
pub mod SortKeys
pub mod Cursors
pub mod Accepted
pub mod Requests
