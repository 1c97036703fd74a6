-- ===== src/Cache/Locking.antt =====
-- `WriteSentinel` and `ReleaseSentinel` of the in-memory provider with the write-through rules.
use authzsdk.Prelude.{
  ℕ, ◌<◌, ◌≡◌, ◌≢◌, refl, ap, none, some, List, [], ◌∷◌, true, false, not, ◌&&◌, ◌||◌, Text,
  text_eq, eq_of_text_eq, text_eq_refl, contains, if◌then◌else◌, arith,
}
use authzsdk.Cache.Sentinel.{
  Key, Sentinel, SentinelType, write_through, is_tombstone_sentinel, is_read_type,
}
use authzsdk.Cache.Store.{str, GoCache}
use authzsdk.Cache.InMemory.Base.{
  string_or_empty, get_string_keys_from_cache_keys, in_mem_multi_get,
}
use authzsdk.Cache.InMemory.Locks.{takes_sentinel, keys_to_clear, release_sentinel, new_keys}
use authzsdk.Cache.Loops.{is_str, get-multi_delete, contains-keys_to_clear}

-- The empty key is dropped from every list, and no other.
pub contains-get_string_keys :
    (ks : List Key) (j : Text)
    → contains (get_string_keys_from_cache_keys ks) j ≡ (not (text_eq j []) && contains ks j)
unfolding get_string_keys_from_cache_keys contains
contains-get_string_keys [] j = ground arith
contains-get_string_keys (k ∷ ks) j =
    ground (arith, contains-get_string_keys ks j, eq_of_text_eq k j, text_eq_refl k)

-- A key that is not empty is left of a list that names one.
pub some_string_key :
    (ks : List Key) (k : Key)
    → contains ks k ≡ true
    → k ≢ []
    → get_string_keys_from_cache_keys ks ≢ []
unfolding contains
some_string_key ks k inside named e =
    ground (arith, ap (λ ks. contains ks k) e, contains-get_string_keys ks k, eq_of_text_eq k [])

-- After `ReleaseSentinel` exactly the listed keys that hold the sentinel are gone.
pub get-release_sentinel :
    (g : GoCache) (ks : List Key) (sentinel : Sentinel) (s : g.State) (j : Key)
    → g.get (release_sentinel g ks sentinel s) j ≡ (
        if contains ks j
          && (not (text_eq j []) && (not (text_eq sentinel []) && is_str (g.get s j) sentinel))
        then none
        else g.get s j)
unfolding release_sentinel
get-release_sentinel g ks sentinel s j = ground (
  arith,
  get-multi_delete g
      (keys_to_clear sentinel (get_string_keys_from_cache_keys ks)
        (in_mem_multi_get g (get_string_keys_from_cache_keys ks) s))
      s j,
  contains-keys_to_clear g sentinel (get_string_keys_from_cache_keys ks) s j,
  contains-get_string_keys ks j,
)

module _ (g : GoCache) (ttl : ℕ) (positive : 0 < ttl) where
  open g use {State, get, get-set}

  -- The state behind one round of the loop over the secondary keys.
  abbrev after_key : SentinelType → Text → State → State
  after_key stype k s =
      if takes_sentinel (get s k) || is_read_type stype
      then s
      else g.set s k (str (string_or_empty (get s k))) ttl

  -- What the loop over the secondary keys changes.
  pub get-new_keys :
      (stype : SentinelType) (ks : List Text) (s : State) (j : Text)
      → get (new_keys g write_through ttl stype ks s).1 j ≡ (
          if contains ks j && (not (takes_sentinel (get s j)) && not (is_read_type stype))
          then some (str (string_or_empty (get s j)))
          else get s j)
  unfolding new_keys contains takes_sentinel
  get-new_keys stype [] s j = refl
  get-new_keys stype (k ∷ ks) s j = ground (
    arith,
    get-new_keys stype ks (after_key stype k s) j,
    eq_of_text_eq k j,
    ap (get s) {x = k} {y = j},
    get-set s k j (str (string_or_empty (get s k))) ttl positive,
  )

  -- A key that is free or holds no tombstone takes the sentinel.
  pub contains-new_keys :
      (stype : SentinelType) (ks : List Text) (s : State) (j : Text)
      → takes_sentinel (get s j) ≡ true
      → contains (new_keys g write_through ttl stype ks s).0 j ≡ contains ks j
  unfolding new_keys contains
  contains-new_keys stype [] s j h = refl
  contains-new_keys stype (k ∷ ks) s j h = ground (
    arith,
    contains-new_keys stype ks (after_key stype k s) j,
    eq_of_text_eq k j,
    get-set s k j (str (string_or_empty (get s k))) ttl positive,
  )

  pub not_contains-new_keys :
      (stype : SentinelType) (ks : List Text) (s : State) (j v : Text)
      → get s j ≡ some (str v)
      → is_tombstone_sentinel v ≡ true
      → contains (new_keys g write_through ttl stype ks s).0 j ≡ false
  unfolding new_keys contains takes_sentinel
  not_contains-new_keys stype [] s j v h t = refl
  not_contains-new_keys stype (k ∷ ks) s j v h t = ground (
    arith,
    not_contains-new_keys stype ks (after_key stype k s) j v,
    eq_of_text_eq k j,
    get-set s k j (str (string_or_empty (get s k))) ttl positive,
  )

  -- No key takes the sentinel that was not named.
  pub contains_of_contains-new_keys :
      (stype : SentinelType) (ks : List Text) (s : State) (j : Text)
      → contains ks j ≡ false
      → contains (new_keys g write_through ttl stype ks s).0 j ≡ false
  unfolding new_keys contains
  contains_of_contains-new_keys stype [] s j h = refl
  contains_of_contains-new_keys stype (k ∷ ks) s j h =
      ground (arith, contains_of_contains-new_keys stype ks (after_key stype k s) j)
