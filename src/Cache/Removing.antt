-- ===== src/Cache/Removing.antt =====
-- `DeleteValue`, `ClearDependencies`, `AddDependency` and `Flush` of the in-memory provider: what
-- each leaves under every key.
use authzsdk.Prelude.{
  ℕ, ◌<◌, ◌≡◌, ◌≢◌, refl, ap, ◌∙◌, Option, none, some, List, [], ◌∷◌, Bool, true, false, not, ◌&&◌,
  Text, text_eq, eq_of_text_eq, contains, if◌then◌else◌, arith, ltb, Bool-cases, Option-cases, inl,
  inr,
}
use authzsdk.Cache.Sentinel.{Key, write_through, is_sentinel_value, generate_tombstone_sentinel}
use authzsdk.Cache.Sentinel.Prefixes.{generate_tombstone_lem, tombstone_class}
use authzsdk.Cache.Store.{Item, str, arr, GoCache}
use authzsdk.Cache.InMemory.Base.{get_string_keys_from_cache_keys, in_mem_multi_delete}
use authzsdk.Cache.InMemory.Values.{delete_unlocked_at, delete_unlocked, delete_value}
use authzsdk.Cache.InMemory.Dependencies.{
  dependents, is_tombstoned, clear_dependencies, flushes, flush_keys, flush,
}
use authzsdk.Cache.Loops.{get-multi_set, get-multi_delete}
use authzsdk.Cache.Locking.{contains-get_string_keys}

-- What `DeleteValue` makes of an item: a lock, a tombstone and an absent key stay, unless forced.
abbrev pub removed : Bool → Option Item → Option Item → Option Item
removed true new x = new
removed false new none = none
removed false new (some (str v)) = if is_sentinel_value v then some (str v) else new
removed false new (some (arr l)) = new

-- What replaces a removed item.
abbrev pub replacement : Bool → Text → Option Item
replacement true id = some (str (generate_tombstone_sentinel id))
replacement false id = none

module _ (g : GoCache) (ttl : ℕ) (positive : 0 < ttl) where
  open g use {State, get, set, get-set, get-delete}

  get-delete_unlocked_at :
      (k : Text) (tombs : Bool) (id : Text) (s : State) (j : Text)
      → get
          (delete_unlocked_at g write_through ttl
            (get s k)
            k
            tombs
            (generate_tombstone_sentinel id)
            s)
          j
        ≡ (if text_eq k j then removed false (replacement tombs id) (get s k) else get s j)
  unfolding delete_unlocked_at
  get-delete_unlocked_at k tombs id s j = ground (
    arith,
    get-set s k j (str (generate_tombstone_sentinel id)) ttl positive,
    get-delete s k j,
    ap (get s) {x = k} {y = j},
    eq_of_text_eq k j,
  )

  removed_twice :
      (tombs : Bool) (id : Text) (x : Option Item)
      → removed false (replacement tombs id) (removed false (replacement tombs id) x)
        ≡ removed false (replacement tombs id) x
  removed_twice tombs id x =
      ground (arith, tombstone_class (generate_tombstone_sentinel id), generate_tombstone_lem id)

  get-delete_unlocked :
      (ks : List Text) (tombs : Bool) (id : Text) (s : State) (j : Text)
      → get (delete_unlocked g write_through ttl ks tombs (generate_tombstone_sentinel id) s) j
        ≡ (if contains ks j then removed false (replacement tombs id) (get s j) else get s j)
  unfolding delete_unlocked contains
  get-delete_unlocked [] tombs id s j = refl
  get-delete_unlocked (k ∷ ks) tombs id s j =
      let t =
        delete_unlocked_at g write_through ttl (get s k) k tombs (generate_tombstone_sentinel id)
          s in
      elim (Bool-cases (text_eq k j)) [
        | inl e ↦
            get-delete_unlocked ks tombs id t j
            ∙ rw (get-delete_unlocked_at k tombs id s j, e, eq_of_text_eq k j e)
                (ground (arith, removed_twice tombs id (get s j)))
        | inr e ↦
            get-delete_unlocked ks tombs id t j ∙ rw (get-delete_unlocked_at k tombs id s j, e)
      ]

  -- `DeleteValue` replaces every item under a named key by a tombstone, or by nothing where none is
  -- asked for; a lock or a tombstone stays unless the call is forced, and without force an absent
  -- key stays absent. Keys that are not named stay as they are.
  pub get-delete_value :
      (keys : List Key) (set_tombstone force : Bool) (id : Text) (s : State) (j : Key)
      → get (delete_value g write_through ttl keys set_tombstone force id s) j ≡ (
          if contains keys j && not (text_eq j [])
          then removed force (replacement set_tombstone id) (get s j)
          else get s j)
  unfolding delete_value
  get-delete_value keys set_tombstone force id s j =
      let ks = get_string_keys_from_cache_keys keys in
      let tombs = set_tombstone && ltb 0 ttl in
      ground (
        arith,
        get-multi_set g ks (generate_tombstone_sentinel id) ttl s j positive,
        get-multi_delete g ks s j,
        get-delete_unlocked ks tombs id s j,
        contains-get_string_keys keys j,
      )

  -- `ClearDependencies` removes every key of the list; the list itself gives way to a tombstone, or
  -- to nothing, but a tombstone in its place stays.
  pub get-clear_dependencies :
      (k : Key) (set_tombstone : Bool) (id : Text) (s : State) (j : Key)
      → k ≢ []
      → get (clear_dependencies g ttl k set_tombstone id s).0 j ≡ (
          if text_eq k j
          then (if not set_tombstone && is_tombstoned (get s k)
              then get s k
              else replacement set_tombstone id)
          else if contains (dependents (get s k)) j
          then none
          else get s j)
  unfolding clear_dependencies contains
  get-clear_dependencies k set_tombstone id s j named =
      let t = in_mem_multi_delete g (dependents (get s k)) s in
      ground (
        arith,
        get-multi_delete g (dependents (get s k)) s j,
        get-set t k j (str (generate_tombstone_sentinel id)) ttl positive,
        get-delete t k j,
        eq_of_text_eq k [],
        eq_of_text_eq k j,
        ap (get s) {x = k} {y = j},
      )

  flushes-none : (prefix : Text) (f : Bool) (j : Text) → flushes prefix f j none ≡ false
  unfolding flushes
  flushes-none prefix f j = refl

  get-flush_keys :
      (ks : List Text) (prefix : Text) (f : Bool) (s : State) (j : Text)
      → get (flush_keys g ks prefix f s) j
        ≡ (if contains ks j && flushes prefix f j (get s j) then none else get s j)
  unfolding flush_keys contains
  get-flush_keys [] prefix f s j = refl
  get-flush_keys (k ∷ ks) prefix f s j = ground (
    arith,
    get-flush_keys ks prefix f (if flushes prefix f k (get s k) then g.delete s k else s) j,
    get-delete s k j,
    eq_of_text_eq k j,
    ap (get s) {x = k} {y = j},
    flushes-none prefix f j,
  )

  -- `Flush` removes exactly the strings under keys with the prefix, but tombstones only if told to;
  -- dependency lists stay.
  pub get-flush :
      (prefix : Text) (f : Bool) (s : State) (j : Key)
      → get (flush g prefix f s) j ≡ (if flushes prefix f j (get s j) then none else get s j)
  unfolding flush
  get-flush prefix f s j = elim (Option-cases (get s j)) [
    | inl e ↦ rw (get-flush_keys (g.keys s) prefix f s j) (ground (arith, flushes-none prefix f j))
    | inr (v, e) ↦
        rw (get-flush_keys (g.keys s) prefix f s j) (ground (arith, g.contains-keys s j v e))
  ]
