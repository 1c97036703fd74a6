-- ===== src/Cache/Protocol.antt =====
-- The protocol of infra/cache/api.go over the in-memory provider: what the other users of a cache
-- can do between the steps of one read, and that a read which has lost its lock stores nothing.
use authzsdk.Prelude.{
  ℕ, ◌<◌, ◌≡◌, ◌≢◌, inl, inr, sym, ◌∙◌, Option, none, some, List, [], ◌∷◌, ◌++◌, Bool, true, false,
  Text, arith, Bool-cases,
}
use authzsdk.Cache.Sentinel.{
  Key, Sentinel, SentinelType, read, write_through, generate_sentinel, generate_tombstone_sentinel,
  is_read_type, is_read_sentinel_prefix, is_write_sentinel_prefix,
}
use authzsdk.Cache.Sentinel.Prefixes.{
  read_class, generate_tombstone_lem, generate_sentinel-IsOfType,
}
use authzsdk.Cache.Store.{Item, str, arr, GoCache, Expires}
use authzsdk.Cache.InMemory.Base.{get_string_keys_from_cache_keys}
use authzsdk.Cache.InMemory.Locks.{release_sentinel, write_sentinel}
use authzsdk.Cache.InMemory.Values.{set_value, get_value, delete_value}
use authzsdk.Cache.InMemory.Dependencies.{add_dependency, clear_dependencies, flush}
use authzsdk.Cache.Adds.{Adds, Adds-expire}
use authzsdk.Cache.Additions.{
  Adds-write_sentinel, Adds-release_sentinel, Adds-get_value, Adds-set_value, Adds-delete_value,
  Adds-add_dependency, Adds-clear_dependencies, Adds-flush,
}
use authzsdk.Cache.Granting.{is_blocked, write_sentinel_refused, keys_of, get-write_sentinel}
use authzsdk.Cache.Storing.{is_stored, set_value_read_lost, write_append}

module _ (g : GoCache) (ttl : ℕ) where
  open g use {State, get}

  -- A step of anybody but the owner of the sentinel `r`: an item expires, or one method runs, with
  -- any arguments but a UUID that makes `r`, or `r` for the value.
  pub data Step (r : Sentinel) : State → State → Type 0 where
    expire : {s t : State} → Expires g s t → Step r s t
    lock :
        (stype : SentinelType) (keys : List Key) (id : Text) (s : State)
        → generate_sentinel stype id ≢ r
        → Step r s (write_sentinel g write_through ttl stype keys id s).0
    release :
        (keys : List Key) (sentinel : Sentinel) (s : State)
        → Step r s (release_sentinel g keys sentinel s)
    fetch :
        (key : Key) (lock_on_miss : Bool) (id : Text) (s : State)
        → generate_sentinel read id ≢ r
        → Step r s (get_value g write_through ttl key lock_on_miss id s).0
    store :
        (lkey : Key) (keys : List Key) (val : Text) (sentinel : Sentinel) (d : ℕ) (s : State)
        → 0 < d
        → val ≢ r
        → Step r s (set_value g write_through ttl lkey keys val sentinel d s).0
    remove :
        (keys : List Key) (set_tombstone force : Bool) (id : Text) (s : State)
        → Step r s (delete_value g write_through ttl keys set_tombstone force id s)
    depend :
        (keys values : List Key) (d : ℕ) (s : State)
        → 0 < d
        → Step r s (add_dependency g keys values d s).0
    clear :
        (key : Key) (set_tombstone : Bool) (id : Text) (s : State)
        → Step r s (clear_dependencies g ttl key set_tombstone id s).0
    purge :
        (prefix : Text) (flush_tombstones : Bool) (s : State)
        → Step r s (flush g prefix flush_tombstones s)

  pub data Reach (r : Sentinel) (s : State) : State → Type 0 where
    here : Reach r s s
    next : {t u : State} → Reach r s t → Step r t u → Reach r s u

  str_injective : {a b : Text} → str a ≡ str b → a ≡ b
  str_injective e = cc

  -- No step of another user adds a read sentinel.
  module _ (positive : 0 < ttl) (r : Sentinel) (reads : is_read_sentinel_prefix r ≡ true) where
    abbrev Other : Item → Type 0
    Other v = v ≢ str r

    mark-Other :
        (c sentinel : Text) → is_write_sentinel_prefix c ≡ true → Other (str (c ++ sentinel))
    mark-Other c sentinel w e =
        cc ((write_append c sentinel w).0, (read_class r reads).0, str_injective e)

    tombstone-Other : (id : Text) → Other (str (generate_tombstone_sentinel id))
    tombstone-Other id e = cc (generate_tombstone_lem id, (read_class r reads).2, str_injective e)

    Step-Adds : {s t : State} → Step r s t → Adds g Other s t
    Step-Adds (expire e) = Adds-expire g Other e
    Step-Adds (lock stype keys id s n) =
        Adds-write_sentinel g ttl positive Other stype keys id s
          (λ e. (read_class r reads).4 (sym (str_injective e))) (λ e. n (str_injective e))
    Step-Adds (release keys sentinel s) = Adds-release_sentinel g ttl positive Other keys sentinel s
    Step-Adds (fetch key l id s n) =
        Adds-get_value g ttl positive Other key l id s (λ e. n (str_injective e))
    Step-Adds (store lkey keys val sentinel d s p n) =
        Adds-set_value g ttl positive Other lkey keys val sentinel d s p (λ e. n (str_injective e))
          (λ c. mark-Other c sentinel)
    Step-Adds (remove keys st f id s) =
        Adds-delete_value g ttl positive Other keys st f id s (tombstone-Other id)
    Step-Adds (depend keys values d s p) =
        Adds-add_dependency g ttl positive Other keys values d s p (λ l e. cc)
    Step-Adds (clear key st id s) =
        Adds-clear_dependencies g ttl positive Other key st id s (tombstone-Other id)
    Step-Adds (purge prefix f s) = Adds-flush g ttl positive Other prefix f s

    Step-lost :
        (k : Key) {s t : State} → get s k ≢ some (str r) → Step r s t → get t k ≢ some (str r)
    Step-lost k h st e = elim ((Step-Adds st).at k) [
      | inl same ↦ h (sym same ∙ e)
      | inr (inl gone) ↦ cc
      | inr (inr (v, f, n)) ↦ n (cc)
    ]

    Reach-lost :
        (k : Key) {s t : State} → get s k ≢ some (str r) → Reach r s t → get t k ≢ some (str r)
    Reach-lost k h here = h
    Reach-lost k h (next p st) = Step-lost k (Reach-lost k h p) st

    blocked_other :
        (u : SentinelType) (x : Option Item)
        → is_read_type u ≡ false
        → is_blocked u x ≡ true
        → x ≢ some (str r)
    blocked_other u none w b e = cc
    blocked_other u (some (arr l)) w b e = cc
    blocked_other u (some (str v)) w b e = ground (arith, e, (read_class r reads).1)

    -- The lock of a write or a delete takes the key from every read.
    write_sentinel-lost :
        (u : SentinelType) (k : Key) (locks : List Key) (j : Text) (s : State)
        → is_read_type u ≡ false
        → k ≢ []
        → get (write_sentinel g write_through ttl u (k ∷ locks) j s).0 k ≢ some (str r)
    write_sentinel-lost u k locks j s w named = elim (Bool-cases (is_blocked u (get s k))) [
      | inl b ↦
          rw
            (write_sentinel_refused g ttl positive u (k ∷ locks) j k
              (get_string_keys_from_cache_keys locks) s (keys_of k locks named) b)
            (blocked_other u (get s k) w b)
      | inr b ↦ λ e. cc (
        get-write_sentinel g ttl positive u k locks j s named b,
        e,
        (generate_sentinel-IsOfType u j).reads,
        w,
        reads,
      )
    ]

    -- After somebody asked for the lock of a create, update or delete on a primary key, a read of
    -- it that began before can no longer store what it fetched: whatever steps others make in
    -- between, its `SetValue` reports no success and changes nothing.
    pub stale_read_refused :
        (u : SentinelType) (k : Key) (locks keys : List Key) (j val : Text) (d : ℕ) (s t : State)
        → is_read_type u ≡ false
        → k ≢ []
        → Reach r (write_sentinel g write_through ttl u (k ∷ locks) j s).0 t
        → ((set_value g write_through ttl k keys val r d t).0 ≡ t)
          × (is_stored (set_value g write_through ttl k keys val r d t).1 ≡ false)
    stale_read_refused u k locks keys j val d s t w named steps =
        set_value_read_lost g ttl k keys val r d t reads
          (Reach-lost k (write_sentinel-lost u k locks j s w named) steps)
