-- ===== src/Cache/Additions.antt =====
-- Which items each method of infra/cache/inmemory_provider.go can add to the map.
use authzsdk.Prelude.{
  ℕ, ◌<◌, ◌≡◌, inl, inr, refl, Option, none, some, List, [], ◌∷◌, ◌++◌, Bool, true, false, ◌&&◌,
  Text, text_eq, arith, ltb, Bool-cases, Option-cases, length, ◌==◌,
}
use authzsdk.Cache.Sentinel.{
  Key, Sentinel, SentinelType, read, write_through, generate_sentinel, generate_tombstone_sentinel,
  is_read_type, is_write_sentinel_prefix, is_sentinel_value, can_always_set_sentinel,
}
use authzsdk.Cache.Store.{Item, str, arr, GoCache}
use authzsdk.Cache.InMemory.Base.{
  mem_sentinel_ttl, string_or_empty, as_string, refresh, get_string_keys_from_cache_keys,
  in_mem_multi_get,
}
use authzsdk.Cache.InMemory.Locks.{
  takes_sentinel, keys_to_clear, release_sentinel, new_keys, primary_refuses, write_sentinel_keys,
  write_sentinel,
}
use authzsdk.Cache.InMemory.Values.{
  set_value_at, set_value, get_value_at, get_value, delete_unlocked_at, delete_unlocked,
  delete_value,
}
use authzsdk.Cache.InMemory.Dependencies.{
  key_to_set, unique_keys, save_key_array, add_dependency, dependents, is_tombstoned,
  clear_dependencies, flushes, flush_keys, flush,
}
use authzsdk.Cache.Adds.{
  Adds, Adds-refl, Adds-trans, Adds-if, Adds-set, Adds-delete, Adds-multi_set, Adds-multi_delete,
}
use authzsdk.Cache.Loops.{get-refresh}
use authzsdk.Cache.Storing.{can_set_value_verdicts}

module _ (g : GoCache) (ttl : ℕ) (positive : 0 < ttl) (P : Item → Type 0) where
  open g use {State, get, set}

  Adds-refresh : (k : Text) (s : State) → Adds g P s (refresh g k ttl (get s k) s)
  Adds-refresh k s = record { at = λ j. inl (get-refresh g k ttl s j positive) }

  -- One round of the loop of `WriteSentinel` over the further keys.
  Adds-kept_key :
      (x : Option Item) (k : Text) (s : State)
      → get s k ≡ x
      → P (str [])
      → takes_sentinel x ≡ false
      → Adds g P s (set s k (str (string_or_empty x)) ttl)
  unfolding takes_sentinel refresh
  Adds-kept_key none k s e p t = cc
  Adds-kept_key (some (arr l)) k s e p t = Adds-set g P s k (str []) ttl positive p
  Adds-kept_key (some (str v)) k s e p t = rw e at (Adds-refresh k s)

  Adds-new_keys :
      (stype : SentinelType) (ks : List Text) (s : State)
      → P (str [])
      → Adds g P s (new_keys g write_through ttl stype ks s).1
  unfolding new_keys
  Adds-new_keys stype [] s p = Adds-refl g P s
  Adds-new_keys stype (k ∷ ks) s p = elim (Bool-cases (takes_sentinel (get s k))) [
    | inl e ↦ rw e (Adds-new_keys stype ks s p)
    | inr e ↦ rw e (
        Adds-trans g P
          (Adds-if g P (is_read_type stype) (Adds-refl g P s)
            (Adds-kept_key (get s k) k s refl p e))
          (Adds-new_keys stype ks _ p))
  ]

  Adds-write_sentinel_keys :
      (stype : SentinelType) (sentinel : Sentinel) (ks : List Text) (s : State)
      → P (str [])
      → P (str sentinel)
      → Adds g P s (write_sentinel_keys g write_through ttl stype sentinel ks s).0
  unfolding write_sentinel_keys can_always_set_sentinel
  Adds-write_sentinel_keys stype sentinel [] s p q = Adds-refl g P s
  Adds-write_sentinel_keys stype sentinel (k ∷ ks) s p q =
      elim (Bool-cases (primary_refuses write_through (get s k) sentinel)) [
        | inl e ↦ rw e (Adds-refl g P s)
        | inr e ↦ rw e (
            Adds-trans g P (Adds-new_keys stype ks s p) (
              Adds-multi_set g P (k ∷ (new_keys g write_through ttl stype ks s).0) sentinel false
                mem_sentinel_ttl _ (omega arith) q))
      ]

  pub Adds-write_sentinel :
      (stype : SentinelType) (keys : List Key) (id : Text) (s : State)
      → P (str [])
      → P (str (generate_sentinel stype id))
      → Adds g P s (write_sentinel g write_through ttl stype keys id s).0
  unfolding write_sentinel
  Adds-write_sentinel stype keys id s p q =
      Adds-write_sentinel_keys stype (generate_sentinel stype id)
        (get_string_keys_from_cache_keys keys) s p q

  pub Adds-release_sentinel :
      (keys : List Key) (sentinel : Sentinel) (s : State)
      → Adds g P s (release_sentinel g keys sentinel s)
  unfolding release_sentinel
  Adds-release_sentinel keys sentinel s =
      Adds-multi_delete g P
        (keys_to_clear sentinel (get_string_keys_from_cache_keys keys)
          (in_mem_multi_get g (get_string_keys_from_cache_keys keys) s))
        s

  pub Adds-get_value :
      (key : Key) (lock : Bool) (id : Text) (s : State)
      → P (str (generate_sentinel read id))
      → Adds g P s (get_value g write_through ttl key lock id s).0
  unfolding get_value get_value_at
  Adds-get_value key lock id s p = elim (Bool-cases (text_eq key [])) [
    | inl e ↦ rw e (Adds-refl g P s)
    | inr e ↦ rw e (at (get s key))
  ]
    where
      at : (x : Option Item) → Adds g P s (get_value_at g write_through ttl x key lock id s).0
      at none = elim (Bool-cases lock) [
        | inl e ↦ rw e (
            Adds-multi_set g P (key ∷ []) (generate_sentinel read id) true mem_sentinel_ttl s
              (omega arith) p)
        | inr e ↦ rw e (Adds-refl g P s)
      ]
      at (some (arr l)) = Adds-refl g P s
      at (some (str v)) = Adds-refl g P s

  Adds-set_value_at :
      (x : Option Item) (ks : List Text) (val : Text) (sentinel : Sentinel) (d : ℕ) (s : State)
      → 0 < d
      → P (str val)
      → ((c : Text) → is_write_sentinel_prefix c ≡ true → P (str (c ++ sentinel)))
      → Adds g P s (set_value_at g write_through ttl (as_string x) ks val sentinel d s).0
  unfolding set_value_at
  Adds-set_value_at none ks val sentinel d s h p q = Adds-refl g P s
  Adds-set_value_at (some (arr l)) ks val sentinel d s h p q = Adds-refl g P s
  Adds-set_value_at (some (str curr)) ks val sentinel d s h p q =
      elim (can_set_value_verdicts curr val sentinel) [
        | inl (e, same) ↦ rw e (Adds-multi_set g P ks val false d s h p)
        | inr (inl (ne, e)) ↦ rw e (Adds-refl g P s)
        | inr (inr (inl (ne, w, e))) ↦ rw e (Adds-multi_delete g P ks s)
        | inr (inr (inr (ne, w, c, e))) ↦ rw e (
            Adds-multi_set g P ks (curr ++ sentinel) false mem_sentinel_ttl s (omega arith)
              (q curr c))
      ]

  pub Adds-set_value :
      (lkey : Key) (keys : List Key) (val : Text) (sentinel : Sentinel) (d : ℕ) (s : State)
      → 0 < d
      → P (str val)
      → ((c : Text) → is_write_sentinel_prefix c ≡ true → P (str (c ++ sentinel)))
      → Adds g P s (set_value g write_through ttl lkey keys val sentinel d s).0
  unfolding set_value
  Adds-set_value lkey keys val sentinel d s h p q =
      let ks = get_string_keys_from_cache_keys keys in
      elim (Bool-cases (length ks == 0)) [
        | inl e ↦ rw e (Adds-refl g P s)
        | inr e ↦ elim (Bool-cases (text_eq lkey [])) [
          | inl f ↦ rw (e, f) (Adds-refl g P s)
          | inr f ↦ rw (e, f) (Adds-set_value_at (get s lkey) ks val sentinel d s h p q)
        ]
      ]

  Adds-delete_unlocked_at :
      (x : Option Item) (k : Text) (tombs : Bool) (tombstone : Sentinel) (s : State)
      → P (str tombstone)
      → Adds g P s (delete_unlocked_at g write_through ttl x k tombs tombstone s)
  unfolding delete_unlocked_at
  Adds-delete_unlocked_at none k tombs tombstone s p = Adds-refl g P s
  Adds-delete_unlocked_at (some (arr l)) k tombs tombstone s p =
      Adds-if g P tombs (Adds-set g P s k (str tombstone) ttl positive p) (Adds-delete g P s k)
  Adds-delete_unlocked_at (some (str v)) k tombs tombstone s p =
      Adds-if g P (is_sentinel_value v) (Adds-refl g P s)
        (Adds-if g P tombs (Adds-set g P s k (str tombstone) ttl positive p) (Adds-delete g P s k))

  Adds-delete_unlocked :
      (ks : List Text) (tombs : Bool) (tombstone : Sentinel) (s : State)
      → P (str tombstone)
      → Adds g P s (delete_unlocked g write_through ttl ks tombs tombstone s)
  unfolding delete_unlocked
  Adds-delete_unlocked [] tombs tombstone s p = Adds-refl g P s
  Adds-delete_unlocked (k ∷ ks) tombs tombstone s p =
      Adds-trans g P (Adds-delete_unlocked_at (get s k) k tombs tombstone s p) (
        Adds-delete_unlocked ks tombs tombstone
          (delete_unlocked_at g write_through ttl (get s k) k tombs tombstone s) p)

  pub Adds-delete_value :
      (keys : List Key) (set_tombstone force : Bool) (id : Text) (s : State)
      → P (str (generate_tombstone_sentinel id))
      → Adds g P s (delete_value g write_through ttl keys set_tombstone force id s)
  unfolding delete_value
  Adds-delete_value keys set_tombstone force id s p =
      let ks = get_string_keys_from_cache_keys keys in
      let tombs = set_tombstone && ltb 0 ttl in
      let tombstone = generate_tombstone_sentinel id in
      Adds-if g P force
        (Adds-if g P tombs (Adds-multi_set g P ks tombstone false ttl s positive p)
          (Adds-multi_delete g P ks s))
        (Adds-delete_unlocked ks tombs tombstone s p)

  Adds-save_key_array :
      (dkeys news : List Text) (d : ℕ) (s : State)
      → 0 < d
      → ((l : List Text) → P (arr l))
      → Adds g P s (save_key_array g dkeys news d s).0
  unfolding save_key_array
  Adds-save_key_array [] news d s h p = Adds-refl g P s
  Adds-save_key_array (k ∷ ks) news d s h p = elim (Option-cases (key_to_set g (get s k) news s)) [
    | inl e ↦ rw (e, save_key_array) (Adds-refl g P s)
    | inr (l, e) ↦
        rw (e, save_key_array)
          (Adds-trans g P (Adds-set g P s k (arr (unique_keys [] l)) d h (p (unique_keys [] l)))
            (Adds-save_key_array ks news d (set s k (arr (unique_keys [] l)) d) h p))
  ]

  pub Adds-add_dependency :
      (keys values : List Key) (d : ℕ) (s : State)
      → 0 < d
      → ((l : List Text) → P (arr l))
      → Adds g P s (add_dependency g keys values d s).0
  unfolding add_dependency
  Adds-add_dependency keys values d s h p =
      Adds-save_key_array (get_string_keys_from_cache_keys keys)
        (get_string_keys_from_cache_keys values) d s h p

  pub Adds-clear_dependencies :
      (key : Key) (set_tombstone : Bool) (id : Text) (s : State)
      → P (str (generate_tombstone_sentinel id))
      → Adds g P s (clear_dependencies g ttl key set_tombstone id s).0
  unfolding clear_dependencies
  Adds-clear_dependencies key set_tombstone id s p = elim (Bool-cases (text_eq key [])) [
    | inl e ↦ rw e (Adds-refl g P s)
    | inr e ↦ rw e (
        Adds-trans g P (Adds-multi_delete g P (dependents (get s key)) s) (
          Adds-if g P (set_tombstone && ltb 0 ttl) (Adds-set g P _ key _ ttl positive p)
            (Adds-if g P (is_tombstoned (get s key)) (Adds-refl g P _) (Adds-delete g P _ key))))
  ]

  Adds-flush_keys :
      (ks : List Text) (prefix : Text) (tombs : Bool) (s : State)
      → Adds g P s (flush_keys g ks prefix tombs s)
  unfolding flush_keys
  Adds-flush_keys [] prefix tombs s = Adds-refl g P s
  Adds-flush_keys (k ∷ ks) prefix tombs s =
      Adds-trans g P
        (Adds-if g P (flushes prefix tombs k (get s k)) (Adds-delete g P s k) (Adds-refl g P s))
        (Adds-flush_keys ks prefix tombs _)

  pub Adds-flush : (prefix : Text) (tombs : Bool) (s : State) → Adds g P s (flush g prefix tombs s)
  unfolding flush
  Adds-flush prefix tombs s = Adds-flush_keys (g.keys s) prefix tombs s
