-- ===== src/Cache/InMemory.antt =====
-- infra/cache/inmemory_provider.go: the cache provider of one process. Each method runs under the
-- provider's mutex, so it is one step from a state of the map to the next. The text of each UUID
-- that a method draws is an argument.
pub mod Base
pub mod Locks
pub mod Values
pub mod Dependencies
