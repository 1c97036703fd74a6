-- ===== src/Cache/InMemory/Locks.antt =====
-- infra/cache/inmemory_provider.go: `WriteSentinel` and `ReleaseSentinel`.
use authzsdk.Prelude.{
  ℕ, Option, none, some, List, [], ◌∷◌, Bool, true, false, not, ◌&&◌, ◌||◌, Text, text_eq,
  if◌then◌else◌,
}
use authzsdk.Cache.Sentinel.{
  Key, Sentinel, SentinelType, SentinelManager, no_lock_sentinel, is_tombstone_sentinel,
  is_read_type,
}
use authzsdk.Cache.Store.{Item, str, arr, GoCache}
use authzsdk.Cache.InMemory.Base.{
  Result, ok, err, no_keys, mem_sentinel_ttl, string_or_empty, get_string_keys_from_cache_keys,
  in_mem_multi_set, in_mem_multi_get, in_mem_multi_delete,
}

-- A key behind the primary one takes the sentinel if it is free or holds a string that is no
-- tombstone.
unfoldable pub takes_sentinel : Option Item → Bool
takes_sentinel none = true
takes_sentinel (some (str v)) = not (is_tombstone_sentinel v)
takes_sentinel (some (arr l)) = false

-- The loop of `ReleaseSentinel`, over the keys and the values read before it.
unfoldable pub keys_to_clear : Sentinel → List Text → List Text → List Text
keys_to_clear sentinel [] values = []
keys_to_clear sentinel (key ∷ keys) [] = []
keys_to_clear sentinel (key ∷ keys) (v ∷ values) =
    let rest = keys_to_clear sentinel keys values in
    if not (text_eq v []) && text_eq v sentinel then key ∷ rest else rest

module _ (sm : SentinelManager) where
  -- The test of the primary key in `WriteSentinel`.
  unfoldable pub primary_refuses : Option Item → Sentinel → Bool
  primary_refuses (some (str value)) sentinel =
      sm.is_sentinel value && not (sm.can_set_given value sentinel)
  primary_refuses (some (arr l)) sentinel = false
  primary_refuses none sentinel = false

module _ (g : GoCache) where
  open g use {State, get, set}

  unfoldable pub release_sentinel : List Key → Sentinel → State → State
  unfolding keys_to_clear in_mem_multi_get in_mem_multi_delete
  release_sentinel keys_in sentinel s =
      let keys = get_string_keys_from_cache_keys keys_in in
      in_mem_multi_delete g (keys_to_clear sentinel keys (in_mem_multi_get g keys s)) s

module _ (g : GoCache) (sm : SentinelManager) (tombstone_ttl : ℕ) where
  open g use {State, get, set}

  -- The loop of `WriteSentinel` over the keys behind the primary one: those that take the
  -- sentinel, and the state. Of the others a write extends the life; what is no string is
  -- replaced by the empty one.
  unfoldable pub new_keys : SentinelType → List Text → State → List Text × State
  unfolding takes_sentinel
  new_keys stype [] s = ([], s)
  new_keys stype (key ∷ keys) s =
      let found = get s key in
      let take = takes_sentinel found in
      let rest = new_keys stype keys (
        if take || is_read_type stype
        then s
        else set s key (str (string_or_empty found)) tombstone_ttl) in
      (if take then key ∷ rest.0 else rest.0, rest.1)

  unfoldable pub write_sentinel_keys :
      SentinelType → Sentinel → List Text → State → State × Result Sentinel
  write_sentinel_keys stype sentinel [] s = (s, err no_keys)
  write_sentinel_keys stype sentinel (key ∷ keys) s =
      let rest = new_keys stype keys s in
      if sm.can_always_set sentinel
      then ((in_mem_multi_set g (key ∷ keys) sentinel false mem_sentinel_ttl s).0, ok sentinel)
      else if primary_refuses sm (get s key) sentinel
      then (s, ok no_lock_sentinel)
      else (
        (in_mem_multi_set g (key ∷ rest.0) sentinel false mem_sentinel_ttl rest.1).0,
        ok sentinel,
      )

  unfoldable pub write_sentinel : SentinelType → List Key → Text → State → State × Result Sentinel
  unfolding write_sentinel_keys
  write_sentinel stype keys_in id s =
      write_sentinel_keys stype (sm.generate stype id) (get_string_keys_from_cache_keys keys_in) s
