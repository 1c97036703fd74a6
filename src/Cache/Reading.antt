-- ===== src/Cache/Reading.antt =====
-- `GetValue` and `GetValues` of the in-memory provider: what a read is told, what it locks, and the
-- round trip of a read that stores what it fetched.
use authzsdk.Prelude.{
  ℕ, suc, ◌<◌, ◌≡◌, ◌≢◌, ◌⊎◌, inl, inr, refl, ap, sym, ◌∙◌, Option, none, some, List, [], ◌∷◌, map,
  Bool, true, false, Text, text_eq, eq_of_text_eq, text_eq_refl, contains, if◌then◌else◌, arith,
  Bool-cases, Option-cases, length, All,
}
use authzsdk.Cache.Sentinel.{Key, write_through, read, is_sentinel_value, generate_sentinel}
use authzsdk.Cache.Sentinel.Prefixes.{generate_sentinel-IsOfType}
use authzsdk.Cache.Store.{Item, str, arr, GoCache}
use authzsdk.Cache.InMemory.Base.{ok, mem_sentinel_ttl, in_mem_multi_set}
use authzsdk.Cache.InMemory.Values.{
  Found, miss, lookup, set_value, get_value_at, get_value, get_values_from, get_values,
}
use authzsdk.Cache.Locking.{some_string_key}
use authzsdk.Cache.Storing.{set_value_held, is_stored}

-- What `GetValue` tells of a key that holds the item, when it asks for no lock.
abbrev pub seen : Option Item → Found
seen none = miss
seen (some (str v)) =
    if is_sentinel_value v
    then record miss { conflict = some v }
    else record miss { value = some v }
seen (some (arr l)) = miss

module _ (g : GoCache) (tombstone_ttl : ℕ) where
  open g use {State, get, set, get-set}

  get_value-get_value_at :
      (k : Key) (lock : Bool) (id : Text) (s : State)
      → k ≢ []
      → get_value g write_through tombstone_ttl k lock id s ≡ (
          let r = get_value_at g write_through tombstone_ttl (get s k) k lock id s in (r.0, ok r.1))
  unfolding get_value
  get_value-get_value_at k lock id s named = ground (arith, eq_of_text_eq k [])

  get_value_at-seen :
      (x : Option Item) (k : Key) (lock : Bool) (id : Text) (s : State)
      → (x ≢ none) ⊎ (lock ≡ false)
      → get_value_at g write_through tombstone_ttl x k lock id s ≡ (s, seen x)
  unfolding get_value_at
  get_value_at-seen none k false id s h = refl
  get_value_at-seen none k true id s h = elim h [ inl n ↦ absurd (n refl) | inr e ↦ cc ]
  get_value_at-seen (some (str v)) k lock id s h = ground arith
  get_value_at-seen (some (arr l)) k lock id s h = refl

  -- A read that asks for no lock, or finds something, changes nothing. It is told the value of the
  -- key, or the sentinel or the tombstone in it as the conflict.
  pub get_value-seen :
      (k : Key) (lock : Bool) (id : Text) (s : State)
      → k ≢ []
      → (get s k ≢ none) ⊎ (lock ≡ false)
      → get_value g write_through tombstone_ttl k lock id s ≡ (s, ok (seen (get s k)))
  get_value-seen k lock id s named h =
      rw (get_value-get_value_at k lock id s named, get_value_at-seen (get s k) k lock id s h)

  -- A read that finds nothing and asks for the lock gets a read sentinel, which its key then holds.
  pub get_value_locks :
      (k : Key) (id : Text) (s : State)
      → k ≢ []
      → get s k ≡ none
      → ((get_value g write_through tombstone_ttl k true id s).1
          ≡ ok (record miss { sentinel = generate_sentinel read id }))
        × ((j : Key)
            → get (get_value g write_through tombstone_ttl k true id s).0 j
              ≡ (if text_eq k j then some (str (generate_sentinel read id)) else get s j))
  unfolding get_value_at in_mem_multi_set
  get_value_locks k id s named free =
      rw (get_value-get_value_at k true id s named, free, get_value_at)
        (
          rw (free, in_mem_multi_set) refl,
          λ j.
              rw (free, in_mem_multi_set)
                (get-set s k j (str (generate_sentinel read id)) mem_sentinel_ttl (omega arith)),
        )

  -- A read that misses, fetches a plain value and stores it under its key is stored, and the next
  -- read of the key finds the value.
  pub fetch_store_fetch :
      (k : Key) (keys : List Key) (id id' val : Text) (lock : Bool) (d : ℕ) (s : State)
      → k ≢ []
      → get s k ≡ none
      → contains keys k ≡ true
      → is_sentinel_value val ≡ false
      → 0 < d
      → (let t = (get_value g write_through tombstone_ttl k true id s).0 in
          let u =
            set_value g write_through tombstone_ttl k keys val (generate_sentinel read id) d t in
          (is_stored u.1 ≡ true)
          × (get_value g write_through tombstone_ttl k lock id' u.0
              ≡ (u.0, ok (record miss { value = some val }))))
  fetch_store_fetch k keys id id' val lock d s named free inside plain p =
      let r = generate_sentinel read id in
      let t = (get_value g write_through tombstone_ttl k true id s).0 in
      let u = set_value g write_through tombstone_ttl k keys val r d t in
      let held : get t k ≡ some (str r) =
        ground (arith, (get_value_locks k id s named free).1 k, text_eq_refl k) in
      let (stored, at) =
        set_value_held g tombstone_ttl k keys val r d t p named
          (some_string_key keys k inside named) held in
      let kept : get u.0 k ≡ some (str val) = ground (arith, at k, eq_of_text_eq k []) in
      (rw stored, get_value-seen k lock id' u.0 named (inl (λ e. cc)) ∙ rw kept (ground arith))

  -- While one read holds the lock of a key, another one that asks for it gets none.
  pub one_read_lock :
      (k : Key) (id id' : Text) (s : State)
      → k ≢ []
      → get s k ≡ none
      → (let t = (get_value g write_through tombstone_ttl k true id s).0 in
          get_value g write_through tombstone_ttl k true id' t
          ≡ (t, ok (record miss { conflict = some (generate_sentinel read id) })))
  one_read_lock k id id' s named free =
      let r = generate_sentinel read id in
      let t = (get_value g write_through tombstone_ttl k true id s).0 in
      let held : get t k ≡ some (str r) =
        ground (arith, (get_value_locks k id s named free).1 k, text_eq_refl k) in
      get_value-seen k true id' t named (inl (λ e. cc))
      ∙ rw held (ground (arith, (generate_sentinel-IsOfType read id).marked))

  lookup-seen :
      (k : Key) (met : List (Key × Found)) (s : State) (f : Found)
      → All (λ e. e.1 ≡ seen (get s e.0)) met
      → lookup k met ≡ some f
      → f ≡ seen (get s k)
  unfolding lookup
  lookup-seen k [] s f m h = cc
  lookup-seen k ((j, x) ∷ met) s f m h = elim (Bool-cases (text_eq j k)) [
    | inl e ↦
        let same : x ≡ f = ground arith in
        sym same ∙ m.0 ∙ ap (λ z. seen (get s z)) (eq_of_text_eq j k e)
    | inr e ↦ lookup-seen k met s f m.1 (ground arith)
  ]

  get_values_from-seen :
      (met : List (Key × Found)) (keys : List Key) (locks : List Bool) (ids : ℕ → Text) (s : State)
      → length keys ≡ length locks
      → All (λ k. k ≢ []) keys
      → All (λ b. b ≡ false) locks
      → All (λ e. e.1 ≡ seen (get s e.0)) met
      → get_values_from g write_through tombstone_ttl met keys locks ids s
        ≡ (s, ok (map (λ k. seen (get s k)) keys))
  unfolding get_values_from
  get_values_from-seen met [] locks ids s e n f m = refl
  get_values_from-seen met (k ∷ keys) [] ids s e n f m = absurd (omega arith)
  get_values_from-seen met (k ∷ keys) (l ∷ locks) ids s e n f m =
      elim (Option-cases (lookup k met)) [
        | inl new ↦ rw (
          new,
          get_values_from,
          get_value-seen k l (ids 0) s n.0 (inr f.0),
          get_value-seen k l (ids 0) s n.0 (inr f.0),
          get_values_from-seen ((k, seen (get s k)) ∷ met) keys locks (λ i. ids (suc i)) s
              (omega arith) n.1 f.1 (refl, m),
        )
        | inr (x, old) ↦ rw (
          old,
          get_values_from,
          get_values_from-seen met keys locks (λ i. ids (suc i)) s (omega arith) n.1 f.1 m,
          lookup-seen k met s x m old,
        )
      ]

  -- Reads of several keys that ask for no lock: each is told what its key holds, also where a key
  -- is named twice, and nothing changes.
  pub get_values-seen :
      (keys : List Key) (locks : List Bool) (ids : ℕ → Text) (s : State)
      → length keys ≡ length locks
      → All (λ k. k ≢ []) keys
      → All (λ b. b ≡ false) locks
      → get_values g write_through tombstone_ttl keys locks ids s
        ≡ (s, ok (map (λ k. seen (get s k)) keys))
  unfolding get_values
  get_values-seen keys locks ids s e named free =
      ground (arith, get_values_from-seen [] keys locks ids s e named free tt)
