-- ===== src/Cache/InMemory/Dependencies.antt =====
-- infra/cache/inmemory_provider.go: the dependency lists, and `Flush`.
use authzsdk.Prelude.{
  ℕ, Option, none, some, List, [], ◌∷◌, ◌++◌, Bool, false, not, ◌&&◌, ◌||◌, Text, text_eq,
  has_prefix, contains, if◌then◌else◌, ltb, is_some,
}
use authzsdk.Cache.Sentinel.{Key, is_tombstone_sentinel, generate_tombstone_sentinel}
use authzsdk.Cache.Store.{Item, str, arr, GoCache}
use authzsdk.Cache.InMemory.Base.{
  Result, ok, err, no_keys, key_tombstoned, get_string_keys_from_cache_keys, in_mem_multi_delete,
}

-- The loop that drops the keys met before; `seen` is `keyMap`.
unfoldable pub unique_keys : List Text → List Text → List Text
unfolding contains
unique_keys seen [] = []
unique_keys seen (k ∷ keys) =
    let old = contains seen k in
    let rest = unique_keys (if old then seen else k ∷ seen) keys in if old then rest else k ∷ rest

abbrev pub dependents : Option Item → List Text
dependents (some (arr names)) = names
dependents (some (str v)) = []
dependents none = []

abbrev pub is_tombstoned : Option Item → Bool
is_tombstoned (some (arr names)) = false
is_tombstoned (some (str v)) = is_tombstone_sentinel v
is_tombstoned none = false

-- The test of one item in `Flush`.
unfoldable pub flushes : Text → Bool → Text → Option Item → Bool
flushes prefix flush_tombstones k (some (str v)) =
    has_prefix k prefix && (not (is_tombstone_sentinel v) || flush_tombstones)
flushes prefix flush_tombstones k (some (arr l)) = false
flushes prefix flush_tombstones k none = false

module _ (g : GoCache) where
  open g use {State, get, set, delete, keys}

  -- The dependent keys that are still in the cache.
  unfoldable pub live_keys : List Text → State → List Text
  live_keys [] s = []
  live_keys (k ∷ ks) s = let rest = live_keys ks s in if is_some (get s k) then k ∷ rest else rest

  -- The key list for one dependency key: `none` where the key cannot take one.
  unfoldable pub key_to_set : Option Item → List Text → State → Option (List Text)
  unfolding live_keys
  key_to_set none new_keys s = some new_keys
  key_to_set (some (arr names)) new_keys s = some (new_keys ++ live_keys names s)
  key_to_set (some (str val)) new_keys s = if is_tombstone_sentinel val then none else some new_keys

  abbrev pub add_keys : Option (List Text) → Text → ℕ → State → Option State
  add_keys (some l) dkey ttl s = some (set s dkey (arr (unique_keys [] l)) ttl)
  add_keys none dkey ttl s = none

  unfoldable pub save_key_array : List Text → List Text → ℕ → State → State × Result (Unit {0})
  unfolding key_to_set unique_keys
  save_key_array [] new_keys ttl s = (s, ok tt)
  save_key_array (dkey ∷ dkeys) new_keys ttl s =
      elim (add_keys (key_to_set (get s dkey) new_keys s) dkey ttl s) [
        | none ↦ (s, err key_tombstoned)
        | some t ↦ save_key_array dkeys new_keys ttl t
      ]

  unfoldable pub add_dependency : List Key → List Key → ℕ → State → State × Result (Unit {0})
  unfolding save_key_array
  add_dependency keys_in values ttl s =
      save_key_array (get_string_keys_from_cache_keys keys_in)
        (get_string_keys_from_cache_keys values) ttl s

  module _ (tombstone_ttl : ℕ) where
    unfoldable pub delete_key_array : Text → Bool → Text → State → State
    delete_key_array dkey set_tombstone id s =
        let found = get s dkey in
        let t = in_mem_multi_delete g (dependents found) s in
        if set_tombstone
        then set t dkey (str (generate_tombstone_sentinel id)) tombstone_ttl
        else if is_tombstoned found
        then t
        else delete t dkey

    unfoldable pub clear_dependencies : Key → Bool → Text → State → State × Result (Unit {0})
    unfolding delete_key_array
    clear_dependencies key set_tombstone id s =
        if text_eq key []
        then (s, err no_keys)
        else (delete_key_array key (set_tombstone && ltb 0 tombstone_ttl) id s, ok tt)

  unfoldable pub flush_keys : List Text → Text → Bool → State → State
  unfolding flushes
  flush_keys [] prefix flush_tombstones s = s
  flush_keys (k ∷ ks) prefix flush_tombstones s =
      flush_keys ks prefix flush_tombstones
        (if flushes prefix flush_tombstones k (get s k) then delete s k else s)

  unfoldable pub flush : Text → Bool → State → State
  unfolding flush_keys
  flush prefix flush_tombstones s = flush_keys (keys s) prefix flush_tombstones s
