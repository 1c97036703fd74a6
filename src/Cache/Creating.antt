-- ===== src/Cache/Creating.antt =====
-- The lock of CreateItem of infra/cache/methods.go, over the in-memory provider.
use authzsdk.Prelude.{
  ℕ, ◌≡◌, ◌≢◌, refl, ap, sym, ◌∙◌, ◌⊎◌, inl, inr, Option, some, List, [], Bool, true, false, not,
  ◌&&◌, text_eq_ne, contains, Bool-cases, Option-cases, if◌then◌else◌,
}
use authzsdk.Cache.Sentinel.{Key, Sentinel, create}
use authzsdk.Cache.Store.{str, GoCache}
use authzsdk.Cache.Loading.{release_sentinel-gone}
use authzsdk.Cache.Provider.{in_memory}
use authzsdk.Cache.Manager.{ItemKeys, ItemType, reply}
use authzsdk.Cache.Manager.Locks.{get_item_lock_keys, take_item_lock, release_item_lock}
use authzsdk.Cache.Manager.Methods.{MethodIds, act_and_save, create_locked, create_item, existing}
use authzsdk.Cache.Manager.Loads.{get_item_from_cache}

module _ (g : GoCache) (ttl : ℕ) (t : ItemType) where
  open g use {State, get}
  open t use {Value}

  -- A released lock stands in none of its keys.
  release_item_lock-gone :
      (i : ItemKeys Key) (s : State) (x : Sentinel) (j : Key)
      → x ≢ []
      → contains (get_item_lock_keys create i) j ≡ true
      → j ≢ []
      → get (release_item_lock (in_memory g ttl) create i x s) j ≢ some (str x)
  unfolding release_item_lock
  release_item_lock-gone i s x j n inside named =
      rw (text_eq_ne x [] n)
        (release_sentinel-gone g ttl (get_item_lock_keys create i) s x j n inside named)

  create_locked_released :
      (v : Value) (bypass : Bool) (additional : List Key)
      (action : Value → State → State × Option Value) (ids : MethodIds) (s : State) (x : Sentinel)
      → (take_item_lock (in_memory g ttl) create (t.keys v) ids.lock_ids s).1 ≡ reply x
      → (u : State) × ((create_locked (in_memory g ttl) t v bypass additional action ids s).0
          ≡ release_item_lock (in_memory g ttl) create (t.keys v) x u)
  unfolding create_locked
  create_locked_released v bypass additional action ids s x granted = (
    (act_and_save (in_memory g ttl) t v x bypass additional action ids.save_ids
        (take_item_lock (in_memory g ttl) create (t.keys v) ids.lock_ids s).0).0,
    rw (granted, create_locked) refl,
  )

  create_locked_released-gone :
      (v : Value) (bypass : Bool) (additional : List Key)
      (action : Value → State → State × Option Value) (ids : MethodIds) (s : State) (x : Sentinel)
      (j : Key)
      → (take_item_lock (in_memory g ttl) create (t.keys v) ids.lock_ids s).1 ≡ reply x
      → x ≢ []
      → contains (get_item_lock_keys create (t.keys v)) j ≡ true
      → j ≢ []
      → get (create_locked (in_memory g ttl) t v bypass additional action ids s).0 j ≢ some (str x)
  create_locked_released-gone v bypass additional action ids s x j granted n inside named =
      let (u, e) = create_locked_released v bypass additional action ids s x granted in
      rw e (release_item_lock-gone (t.keys v) u x j n inside named)

  -- The state in which CreateItem takes its lock: with if_not_exists, and the cache not bypassed, what
  -- the lookup of the item leaves.
  abbrev pub before_lock : Key → Bool → MethodIds → State → State
  before_lock key looks_up ids s =
      if looks_up then (get_item_from_cache (in_memory g ttl) t key false ids.load_ids s).0 else s

  -- CreateItem of a valid item, with or without if_not_exists, bypassing the cache or not: where it would
  -- be granted a lock that is not the empty sentinel, either it looked the item up and returns one of the
  -- cache that equals the input, or, whatever it returns, at the end its own lock stands in none of the
  -- keys of the lock that are not empty.
  pub create_releases_lock :
      (v : Value) (key : Key) (if_not_exists bypass : Bool) (additional : List Key)
      (action : Value → State → State × Option Value) (equals : Value → Value → Bool)
      (ids : MethodIds) (s : State) (x : Sentinel) (j : Key)
      → t.is_valid v ≡ true
      → (take_item_lock
          (in_memory g ttl)
          create
          (t.keys v)
          ids.lock_ids
          (before_lock key (if_not_exists && not bypass) ids s)).1
        ≡ reply x
      → x ≢ []
      → contains (get_item_lock_keys create (t.keys v)) j ≡ true
      → j ≢ []
      → (let p = in_memory g ttl in
          let found = get_item_from_cache p t key false ids.load_ids s in
          let r =
            create_item p t (some v) key if_not_exists bypass additional action equals ids s in
          ((if_not_exists && not bypass ≡ true)
            × ((w : Value) × (existing p t equals v found.1 ≡ some w) × (r ≡ (found.0, reply w))))
          ⊎ (get r.0 j ≢ some (str x)))
  unfolding create_item
  create_releases_lock v key if_not_exists bypass additional action equals ids s x j valid granted n
        inside named =
      let p = in_memory g ttl in
      let found = get_item_from_cache p t key false ids.load_ids s in
      let r = create_item p t (some v) key if_not_exists bypass additional action equals ids s in
      let locked = create_locked p t v bypass additional action ids in
      let gone = create_locked_released-gone v bypass additional action ids in
      elim (Bool-cases (if_not_exists && not bypass)) [
        | inr b ↦
            let e : r ≡ locked s = rw (valid, create_item) (rw b refl) in
            let granted' : (take_item_lock p create (t.keys v) ids.lock_ids s).1 ≡ reply x =
              sym (
                ap
                  (λ z.
                    (take_item_lock p create (t.keys v) ids.lock_ids (before_lock key z ids s)).1)
                  b)
              ∙ granted in
            inr (λ h. gone s x j granted' n inside named (sym (ap (λ z. get z.0 j) e) ∙ h))
        | inl b ↦ elim (Option-cases (existing p t equals v found.1)) [
          | inr (w, k) ↦ inl (b, (w, k, rw (valid, create_item) (rw b (rw k refl))))
          | inl k ↦
              let e : r ≡ locked found.0 = rw (valid, create_item) (rw b (rw k refl)) in
              let granted' : (take_item_lock p create (t.keys v) ids.lock_ids found.0).1 ≡ reply x =
                sym (
                  ap
                    (λ z.
                      (take_item_lock p create (t.keys v) ids.lock_ids (before_lock key z ids s)).1)
                    b)
                ∙ granted in
              inr (λ h. gone found.0 x j granted' n inside named (sym (ap (λ z. get z.0 j) e) ∙ h))
        ]
      ]
