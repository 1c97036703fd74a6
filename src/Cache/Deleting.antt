-- ===== src/Cache/Deleting.antt =====
-- What a lock for a delete of an item does to the items that depend on it.
use authzsdk.Prelude.{
  ℕ, ◌<◌, ◌≡◌, ◌≢◌, refl, ◌∙◌, some, List, [], ◌∷◌, ◌++◌, Bool, true, false, Text, text_eq_refl,
  text_eq_ne, contains, arith, has_prefix,
}
use authzsdk.Cache.Sentinel.{
  Key, Sentinel, SentinelType, write_through, delete, generate_tombstone_sentinel,
  is_tombstone_sentinel,
}
use authzsdk.Cache.Store.{str, GoCache}
use authzsdk.Cache.InMemory.Base.{Result, ok, err, key_tombstoned}
use authzsdk.Cache.InMemory.Locks.{write_sentinel_keys, write_sentinel}
use authzsdk.Cache.InMemory.Dependencies.{add_dependency}
use authzsdk.Cache.Granting.{keys_of}
use authzsdk.Cache.Removing.{get-clear_dependencies}
use authzsdk.Cache.Dependents.{add_dependency_tombstoned}
use authzsdk.Cache.Provider.{in_memory}
use authzsdk.Cache.Manager.{ItemKeys, given}
use authzsdk.Cache.Manager.Locks.{
  Ids, get_item_lock_keys, clear_pages, clear_for_delete, clear_on_delete, take_lock_worker,
  take_item_lock,
}

tombstone_lem : (id : Text) → is_tombstone_sentinel (generate_tombstone_sentinel id) ≡ true
unfolding is_tombstone_sentinel generate_tombstone_sentinel has_prefix
tombstone_lem id = refl

abbrev is_ok : Result Sentinel → Bool
is_ok (ok x) = true
is_ok (err e) = false

ok_value : (r : Result Sentinel) → is_ok r ≡ true → (x : Sentinel) × (r ≡ ok x)
ok_value (ok x) e = (x, refl)
ok_value (err e) h = absurd (cc)

module _ (g : GoCache) (ttl : ℕ) (positive : 0 < ttl) where
  open g use {State, get}

  -- Asked for a key, `WriteSentinel` answers without an error.
  write_sentinel_answers :
      (u : SentinelType) (k : Key) (locks : List Key) (id : Text) (s : State)
      → k ≢ []
      → is_ok (write_sentinel g write_through ttl u (k ∷ locks) id s).1 ≡ true
  unfolding write_sentinel write_sentinel_keys
  write_sentinel_answers u k locks id s named = rw (keys_of k locks named) (ground arith)

  get-clear_for_delete :
      (i : ItemKeys Key) (ids : Ids) (x : Sentinel) (s : State)
      → i.dependencies_key ≢ []
      → get (clear_for_delete (in_memory g ttl) i ids x s).0 i.dependencies_key
        ≡ some (str (generate_tombstone_sentinel ids.tombstone_id))
  unfolding clear_for_delete
  get-clear_for_delete i ids x s named = rw (text_eq_ne i.dependencies_key [] named) (
      get-clear_dependencies g ttl positive i.dependencies_key true ids.tombstone_id
        (clear_pages (in_memory g ttl) i ids.pages_id s) i.dependencies_key named
      ∙ rw (text_eq_refl i.dependencies_key) refl)

  -- Right after the lock to delete an item was asked for, granted or not, `AddDependency` on keys
  -- that include the item's dependencies key fails, since a tombstone stands there. The item has a
  -- primary key and a dependencies key, and times to live are positive.
  pub delete_stops_dependencies :
      (i : ItemKeys Key) (ids : Ids) (s : State) (keys values : List Key) (life : ℕ)
      → 0 < life
      → i.primary_key ≢ []
      → i.dependencies_key ≢ []
      → contains keys i.dependencies_key ≡ true
      → (add_dependency g keys values life (take_item_lock (in_memory g ttl) delete i ids s).0).1
        ≡ err key_tombstoned
  unfolding take_item_lock get_item_lock_keys take_lock_worker clear_on_delete
  delete_stops_dependencies i ids s keys values life p named dependent inside =
      let (x, e) = ok_value _ (
        write_sentinel_answers delete i.primary_key
          (given i.global_collection_key ++ i.secondary_keys ++ given i.per_item_collection_key)
          ids.sentinel_id s named) in
      rw (e, clear_on_delete)
        (add_dependency_tombstoned g keys values life _ i.dependencies_key
          (generate_tombstone_sentinel ids.tombstone_id) p dependent inside
          (get-clear_for_delete i ids x _ dependent) (tombstone_lem ids.tombstone_id))
