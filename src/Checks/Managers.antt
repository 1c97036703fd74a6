-- ===== src/Checks/Managers.antt =====
-- The theorem on deletes at a concrete item, over the cache of the tests.
use authzsdk.Prelude.{◌≡◌, refl, [], ◌∷◌, lit, text_eq, contains, ne_of_text_eq, arith}
use authzsdk.Cache.Sentinel.{Key, delete}
use authzsdk.Cache.Store.{str}
use authzsdk.Cache.InMemory.Base.{err, key_tombstoned}
use authzsdk.Cache.InMemory.Dependencies.{add_dependency}
use authzsdk.Cache.Provider.{in_memory}
use authzsdk.Cache.Manager.{ItemKeys}
use authzsdk.Cache.Manager.Locks.{Ids, take_item_lock}
use authzsdk.Cache.Deleting.{delete_stops_dependencies}
use authzsdk.Checks.Table.{Table, table}

abbrev item : ItemKeys Key
item = record {
  primary_key = lit "p";
  secondary_keys = lit "n" ∷ [];
  global_collection_key = lit "c";
  global_collection_pages_key = lit "g";
  per_item_collection_key = [];
  dependencies_key = lit "d";
  is_modified_key = lit "m";
  is_modified_collection_key = [];
  dependency_keys = [];
}

abbrev ids : Ids
ids = record { sentinel_id = lit "1"; pages_id = lit "2"; tombstone_id = lit "3" }

abbrev stored : Table
stored = (lit "p", str (lit "object")) ∷ []

delete_stops_dependencies_example :
    (add_dependency table
      (lit "d" ∷ [])
      (lit "e" ∷ [])
      60
      (take_item_lock (in_memory table 5) delete item ids stored).0).1
    ≡ err key_tombstoned
unfolding text_eq contains
delete_stops_dependencies_example =
    delete_stops_dependencies table 5 (omega arith) item ids stored (lit "d" ∷ []) (lit "e" ∷ []) 60
      (omega arith) (ne_of_text_eq (lit "p") [] refl) (ne_of_text_eq (lit "d") [] refl) refl
