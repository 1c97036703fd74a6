-- ===== src/Cache/Granting.antt =====
-- When `WriteSentinel` of the in-memory provider grants a lock by the write-through rules, and what
-- it leaves in the map.
use authzsdk.Prelude.{
  ℕ, ◌<◌, ◌≡◌, ◌≢◌, refl, Option, none, some, List, [], ◌∷◌, Bool, true, false, ◌&&◌, ◌||◌, Text,
  text_eq, eq_of_text_eq, text_eq_refl, contains, if◌then◌else◌, arith,
}
use authzsdk.Cache.Sentinel.{
  Key, Sentinel, SentinelType, write_through, no_lock_sentinel, is_tombstone_sentinel, is_read_type,
  generate_sentinel, can_set_sentinel_given_curr_val, can_always_set_sentinel, is_sentinel_value,
  is_delete_sentinel_prefix,
}
use authzsdk.Cache.Sentinel.Prefixes.{generate_sentinel-IsOfType, delete_class}
use authzsdk.Cache.Store.{Item, str, arr, GoCache}
use authzsdk.Cache.InMemory.Base.{
  ok, mem_sentinel_ttl, get_string_keys_from_cache_keys, in_mem_multi_set,
}
use authzsdk.Cache.InMemory.Locks.{
  takes_sentinel, primary_refuses, new_keys, write_sentinel_keys, write_sentinel,
}
use authzsdk.Cache.Locking.{
  get-new_keys, contains-new_keys, not_contains-new_keys, contains_of_contains-new_keys,
}
use authzsdk.Cache.Loops.{get-multi_set}

-- A lock is refused where the primary key holds a delete sentinel, or any sentinel value or
-- tombstone if the lock is for a read.
abbrev pub is_blocked : SentinelType → Option Item → Bool
is_blocked stype (some (str v)) =
    is_sentinel_value v && is_read_type stype || is_delete_sentinel_prefix v
is_blocked stype (some (arr l)) = false
is_blocked stype none = false

primary_refuses-is_blocked :
    (stype : SentinelType) (id : Text) (x : Option Item)
    → primary_refuses write_through x (generate_sentinel stype id) ≡ is_blocked stype x
unfolding primary_refuses can_set_sentinel_given_curr_val
primary_refuses-is_blocked stype id (some (str v)) =
    ground (arith, (generate_sentinel-IsOfType stype id).reads, delete_class v)
primary_refuses-is_blocked stype id (some (arr l)) = refl
primary_refuses-is_blocked stype id none = refl

pub keys_of :
    (k : Key) (locks : List Key)
    → k ≢ []
    → get_string_keys_from_cache_keys (k ∷ locks) ≡ k ∷ get_string_keys_from_cache_keys locks
unfolding get_string_keys_from_cache_keys
keys_of k locks named = ground (arith, eq_of_text_eq k [])

-- What a granted lock leaves in the map: the sentinel in the primary key and in each further key
-- that can take it; tombstones of further keys, and keys that were not named, stay.
pub record Granted (g : GoCache) (sentinel : Sentinel) (k : Text) (ks : List Text) (s t : g.State)
    : Type 0 where
  pub primary : g.get t k ≡ some (str sentinel)
  pub further :
      (j : Text)
      → contains ks j ≡ true
      → takes_sentinel (g.get s j) ≡ true
      → g.get t j ≡ some (str sentinel)
  pub tombstones :
      (j v : Text)
      → k ≢ j
      → g.get s j ≡ some (str v)
      → is_tombstone_sentinel v ≡ true
      → g.get t j ≡ some (str v)
  pub others : (j : Text) → contains (k ∷ ks) j ≡ false → g.get t j ≡ g.get s j

module _ (g : GoCache) (ttl : ℕ) (positive : 0 < ttl) where
  open g use {State, get}

  -- A blocked lock changes nothing, and the caller gets the empty sentinel.
  pub write_sentinel_refused :
      (stype : SentinelType) (keys : List Key) (id k : Text) (ks : List Text) (s : State)
      → get_string_keys_from_cache_keys keys ≡ k ∷ ks
      → is_blocked stype (get s k) ≡ true
      → write_sentinel g write_through ttl stype keys id s ≡ (s, ok no_lock_sentinel)
  unfolding write_sentinel can_always_set_sentinel
  write_sentinel_refused stype keys id k ks s e h =
      rw (e, write_sentinel_keys) (ground (arith, primary_refuses-is_blocked stype id (get s k)))

  write_sentinel-unblocked :
      (stype : SentinelType) (keys : List Key) (id k : Text) (ks : List Text) (s : State)
      → get_string_keys_from_cache_keys keys ≡ k ∷ ks
      → is_blocked stype (get s k) ≡ false
      → write_sentinel g write_through ttl stype keys id s ≡ (
        (in_mem_multi_set g
            (k ∷ (new_keys g write_through ttl stype ks s).0)
            (generate_sentinel stype id)
            false
            mem_sentinel_ttl
            (new_keys g write_through ttl stype ks s).1).0,
        ok (generate_sentinel stype id),
      )
  unfolding write_sentinel can_always_set_sentinel
  write_sentinel-unblocked stype keys id k ks s e h =
      rw (e, write_sentinel_keys) (ground (arith, primary_refuses-is_blocked stype id (get s k)))

  -- The keys that take the sentinel hold it; the others are as the loop left them.
  get-locked :
      (stype : SentinelType) (id k : Text) (ks : List Text) (s : State) (j : Text)
      → get
          (in_mem_multi_set g
            (k ∷ (new_keys g write_through ttl stype ks s).0)
            (generate_sentinel stype id)
            false
            mem_sentinel_ttl
            (new_keys g write_through ttl stype ks s).1).0
          j
        ≡ (if text_eq k j || contains (new_keys g write_through ttl stype ks s).0 j
            then some (str (generate_sentinel stype id))
            else get (new_keys g write_through ttl stype ks s).1 j)
  unfolding contains
  get-locked stype id k ks s j =
      get-multi_set g (k ∷ (new_keys g write_through ttl stype ks s).0) (generate_sentinel stype id)
        mem_sentinel_ttl (new_keys g write_through ttl stype ks s).1 j (omega arith)

  -- A lock whose first key that is not empty is not blocked is granted: the caller gets the sentinel,
  -- which stands in that key and in each further key that can take it; tombstones of further keys
  -- and keys that were not named stay.
  pub write_sentinel-Granted :
      (stype : SentinelType) (keys : List Key) (id k : Text) (ks : List Text) (s : State)
      → get_string_keys_from_cache_keys keys ≡ k ∷ ks
      → is_blocked stype (get s k) ≡ false
      → ((write_sentinel g write_through ttl stype keys id s).1 ≡ ok (generate_sentinel stype id))
        × Granted g
            (generate_sentinel stype id)
            k
            ks
            s
            (write_sentinel g write_through ttl stype keys id s).0
  unfolding contains
  write_sentinel-Granted stype keys id k ks s e h =
      rw (write_sentinel-unblocked stype keys id k ks s e h) (
        refl,
        record {
          primary = ground (arith, get-locked stype id k ks s k, text_eq_refl k);
          further = λ j m f.
              ground (
                arith,
                get-locked stype id k ks s j,
                contains-new_keys g ttl positive stype ks s j,
              );
          tombstones = λ j v ne x t. ground (
            arith,
            get-locked stype id k ks s j,
            not_contains-new_keys g ttl positive stype ks s j v,
            get-new_keys g ttl positive stype ks s j,
            eq_of_text_eq k j,
          );
          others = λ j m. ground (
            arith,
            get-locked stype id k ks s j,
            contains_of_contains-new_keys g ttl positive stype ks s j,
            get-new_keys g ttl positive stype ks s j,
          );
        },
      )

  -- A granted lock holds its sentinel in the primary key.
  pub get-write_sentinel :
      (stype : SentinelType) (k : Key) (locks : List Key) (id : Text) (s : State)
      → k ≢ []
      → is_blocked stype (get s k) ≡ false
      → get (write_sentinel g write_through ttl stype (k ∷ locks) id s).0 k
        ≡ some (str (generate_sentinel stype id))
  get-write_sentinel stype k locks id s named free =
      (write_sentinel-Granted stype (k ∷ locks) id k (get_string_keys_from_cache_keys locks) s
        (keys_of k locks named) free).1.primary
