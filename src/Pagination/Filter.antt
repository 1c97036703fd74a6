-- ===== src/Pagination/Filter.antt =====
-- infra/pagination/filter_query.go and filter_parser.go.
pub mod Operators
pub mod Nodes
pub mod Leaf
pub mod Parser
pub mod Heaps
pub mod Rounds
pub mod Total
