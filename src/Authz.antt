-- ===== src/Authz.antt =====
-- Package authz.
pub mod KeyNames
pub mod Models
pub mod Items
pub mod Apart
pub mod Equality
pub mod Client
pub mod Identity
pub mod Searches
pub mod Endings
pub mod PathChecks
pub mod Listings
