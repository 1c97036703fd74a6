-- ===== src/Cache.antt =====
-- Package infra/cache.
pub mod Sentinel
pub mod Store
pub mod InMemory
pub mod Provider
pub mod Manager
pub mod Loops
pub mod Locking
pub mod Granting
pub mod Storing
pub mod Overlap
pub mod Interleaving
pub mod Protocol
pub mod Dependents
pub mod Deleting
pub mod Loading
pub mod Getting
pub mod Creating
pub mod Replying
pub mod Removing
pub mod Reading
pub mod Adds
pub mod Additions
