-- ===== src/Cache/Loading.antt =====
-- The loads of infra/cache/api.go by one key, and the release of a lock, over the in-memory provider.
use authzsdk.Prelude.{
  ℕ, suc, ◌<◌, ◌≡◌, ◌≢◌, refl, ap, ◌∙◌, Option, none, some, List, [], true, false, Text, text_eq,
  text_eq_refl, text_eq_ne, contains, arith, ◌==◌,
}
use authzsdk.Cache.Sentinel.{Key, Sentinel, write_through, read, generate_sentinel}
use authzsdk.Cache.Store.{str, GoCache}
use authzsdk.Cache.Loops.{is_str}
use authzsdk.Cache.InMemory.Base.{ok}
use authzsdk.Cache.InMemory.Locks.{release_sentinel}
use authzsdk.Cache.InMemory.Values.{Found, miss, get_value}
use authzsdk.Cache.Locking.{get-release_sentinel}
use authzsdk.Cache.Reading.{get_value_locks}
use authzsdk.Cache.Provider.{in_memory}
use authzsdk.Cache.Manager.{ItemType, reply}
use authzsdk.Cache.Manager.Loads.{
  get_item_from_cache_worker, get_items_array_from_cache, decoded, nothing_loaded,
}

pub not_zero : (n : ℕ) → 0 < n → (n == 0) ≡ false
not_zero n l = ground arith

module _ (g : GoCache) (ttl : ℕ) where
  open g use {State, get}

  -- The load of an item or slice by one key, where the provider answers with `f`.
  pub load_of :
      {A : Type 0} (unmarshal : Text → Option A) (life : ℕ) (k : Key) (ids : ℕ → Text) (s u : State)
      (f : Found)
      → 0 < life
      → get_value g write_through ttl k true (ids 1) s ≡ (u, ok f)
      → get_item_from_cache_worker (in_memory g ttl) unmarshal life k [] true (λ n. ids (suc n)) s
        ≡ (u, reply (decoded unmarshal f.value f.conflict f.sentinel))
  unfolding get_item_from_cache_worker text_eq
  load_of unmarshal life k ids s u f l e = rw (not_zero life l) (rw e refl)

  -- The load of a slice by a key that holds nothing takes the read lock.
  pub load_locks :
      (t : ItemType) (k : Key) (ids : ℕ → Text) (s : State)
      → 0 < t.ttl
      → k ≢ []
      → get s k ≡ none
      → (u : State) × (get u k ≡ some (str (generate_sentinel read (ids 1))))
        × (get_items_array_from_cache (in_memory g ttl) t k true ids s
            ≡ (u, reply (record nothing_loaded { lock = generate_sentinel read (ids 1) })))
  unfolding get_items_array_from_cache
  load_locks t k ids s l named free =
      let u = (get_value g write_through ttl k true (ids 1) s).0 in
      let locks = get_value_locks g ttl k (ids 1) s named free in
      let e =
        load_of t.unmarshal_all t.ttl k ids s u
          (record miss { sentinel = generate_sentinel read (ids 1) }) l (λ i. (u, locks.0 i)) in
      (u, locks.1 k ∙ rw (text_eq_refl k) refl, rw (e, get_items_array_from_cache) refl)

  -- A released lock stands in none of its keys.
  pub release_sentinel-gone :
      (keys : List Key) (s : State) (x : Sentinel) (j : Key)
      → x ≢ []
      → contains keys j ≡ true
      → j ≢ []
      → get (release_sentinel g keys x s) j ≢ some (str x)
  release_sentinel-gone keys s x j n inside named q = ground (
    arith,
    q,
    get-release_sentinel g keys x s j,
    inside,
    text_eq_ne j [] named,
    text_eq_ne x [] n,
    λ (h : get s j ≡ some (str x)). ap (λ z. is_str z x) h ∙ text_eq_refl x,
  )

  -- A key that holds the lock is free behind its release.
  pub release_sentinel-frees :
      (keys : List Key) (s : State) (x : Sentinel) (j : Key)
      → x ≢ []
      → contains keys j ≡ true
      → j ≢ []
      → get s j ≡ some (str x)
      → get (release_sentinel g keys x s) j ≡ none
  release_sentinel-frees keys s x j n inside named held = ground (
    arith,
    get-release_sentinel g keys x s j,
    inside,
    text_eq_ne j [] named,
    text_eq_ne x [] n,
    ap (λ z. is_str z x) held ∙ text_eq_refl x,
  )
