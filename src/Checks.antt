-- ===== src/Checks.antt =====
-- Tests of the model, and the theorems at concrete inputs.
pub mod Table
pub mod Sorting
mod Protocol
mod Locks
mod Items
mod Filters
mod Managers
mod Sets
mod Methods
mod Clients
mod Searches
mod Idp
mod Attributes
