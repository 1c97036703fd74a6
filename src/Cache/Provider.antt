-- ===== src/Cache/Provider.antt =====
-- infra/cache/api.go: the interface Provider, which the in-memory provider fills. `layered` is its
-- capability. The texts of the UUIDs that a method draws are arguments.
use authzsdk.Prelude.{ℕ, List, Bool, false, Text}
use authzsdk.Cache.Sentinel.{Key, Sentinel, SentinelType, write_through}
use authzsdk.Cache.Store.{GoCache}
use authzsdk.Cache.InMemory.Base.{Result, ok}
use authzsdk.Cache.InMemory.Locks as Locks
use authzsdk.Cache.InMemory.Values as Values
use authzsdk.Cache.InMemory.Values.{Stored, Found}
use authzsdk.Cache.InMemory.Dependencies as Dependencies

pub record Provider : Type 1 where
  pub State : Type 0
  pub layered : Bool
  pub get_value : Key → Bool → Text → State → State × Result Found
  pub get_values : List Key → List Bool → (ℕ → Text) → State → State × Result (List Found)
  pub set_value : Key → List Key → Text → Sentinel → ℕ → State → State × Result Stored
  pub delete_value : List Key → Bool → Bool → Text → State → State × Result (Unit {0})
  pub write_sentinel : SentinelType → List Key → Text → State → State × Result Sentinel
  pub release_sentinel : List Key → Sentinel → State → State
  pub add_dependency : List Key → List Key → ℕ → State → State × Result (Unit {0})
  pub clear_dependencies : Key → Bool → Text → State → State × Result (Unit {0})
  pub flush : Text → Bool → State → State

-- The in-memory provider of a tombstone time to live, with the write-through sentinel manager.
abbrev pub in_memory : GoCache → ℕ → Provider
in_memory g ttl = record {
  State = g.State;
  layered = false;
  get_value = Values.get_value g write_through ttl;
  get_values = Values.get_values g write_through ttl;
  set_value = Values.set_value g write_through ttl;
  delete_value = λ keys tombs force id s.
      (Values.delete_value g write_through ttl keys tombs force id s, ok tt);
  write_sentinel = Locks.write_sentinel g write_through ttl;
  release_sentinel = Locks.release_sentinel g;
  add_dependency = Dependencies.add_dependency g;
  clear_dependencies = Dependencies.clear_dependencies g ttl;
  flush = Dependencies.flush g;
}
