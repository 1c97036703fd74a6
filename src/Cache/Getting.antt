-- ===== src/Cache/Getting.antt =====
-- GetItem and CreateItem of infra/cache/methods.go over the in-memory provider.
use authzsdk.Prelude.{
  ℕ, ◌<◌, ◌≡◌, ◌≢◌, refl, ap, sym, subst, has_prefix, ◌∙◌, inl, Option, none, some, List, [], ◌∷◌,
  ◌++◌, Bool, true, false, Text, text_eq, eq_of_text_eq, text_eq_refl, text_eq_ne, contains, arith,
  if◌then◌else◌,
}
use authzsdk.Cache.Sentinel.{
  Key, Sentinel, SentinelType, is_tombstone_sentinel, write_through, read, is_sentinel_value,
  generate_sentinel, generate_tombstone_sentinel,
}
use authzsdk.Cache.Sentinel.Prefixes.{generate_sentinel-IsOfType}
use authzsdk.Cache.Store.{str, GoCache}
use authzsdk.Cache.InMemory.Values.{miss, get_value}
use authzsdk.Cache.Locking.{some_string_key}
use authzsdk.Cache.Storing.{set_value_held}
use authzsdk.Cache.Reading.{get_value-seen, get_value_locks}
use authzsdk.Cache.Provider.{in_memory}
use authzsdk.Cache.Loading.{not_zero, load_of}
use authzsdk.Cache.Manager.{ItemType, Reply, reply, failed, action_failed}
use authzsdk.Cache.Manager.Loads.{get_item_from_cache_with_modified_key, validate_item}
use authzsdk.Cache.Manager.Saves.{
  SaveIds, save_item_to_cache, save_item_to_cache_worker, save_marshalled, depend_on_others,
  depend_on_itself, undo_save,
}
use authzsdk.Cache.Manager.Methods.{MethodIds, fetch_and_save, get_item, get_item_client}

-- What a caller gets of the server's answer.
abbrev pub answer_of : {S V : Type 0} → S × Option V → S × Reply V
answer_of (s, none) = (s, failed action_failed)
answer_of (s, some v) = (s, reply v)

contains_last : (ks : List Key) (k : Key) → contains (ks ++ (k ∷ [])) k ≡ true
unfolding contains
contains_last [] k = ground (arith, text_eq_refl k)
contains_last (j ∷ ks) k = ground (arith, contains_last ks k)

pub generate_sentinel-ne : (u : SentinelType) (id : Text) → generate_sentinel u id ≢ []
unfolding is_sentinel_value is_tombstone_sentinel has_prefix
generate_sentinel-ne u id e = cc ((generate_sentinel-IsOfType u id).marked, ap is_sentinel_value e)

module _ (g : GoCache) (ttl : ℕ) (positive : 0 < ttl) (t : ItemType) where
  open g use {State, get}
  open t use {Value}

  -- Without a lock nothing is saved.
  save_without_lock :
      (v : Value) (clear : Bool) (additional : List Key) (ids : SaveIds) (s : State)
      → save_item_to_cache (in_memory g ttl) t v [] clear additional ids s ≡ s
  unfolding save_item_to_cache save_item_to_cache_worker text_eq
  save_without_lock v clear additional ids s = ground arith

  fetch_without_lock :
      (c : Sentinel) (action : Sentinel → State → State × Option Value) (ids : SaveIds) (s : State)
      → fetch_and_save (in_memory g ttl) t false c [] action ids s ≡ answer_of (action c s)
  unfolding fetch_and_save
  fetch_without_lock c action ids s = answered (action c s)
    where
      answered :
          (r : State × Option Value)
          → elim r.1 as (λ _. State × Reply Value) [
            | none ↦ (r.0, failed action_failed)
            | some resp ↦
                (save_item_to_cache (in_memory g ttl) t resp [] false [] ids r.0, reply resp)
          ]
            ≡ answer_of r
      answered (u, none) = refl
      answered (u, some v) = ap (λ z. (z, reply v)) (save_without_lock v false [] ids u)

  fetch_bypassing :
      (c : Sentinel) (action : Sentinel → State → State × Option Value) (ids : SaveIds) (s : State)
      → fetch_and_save (in_memory g ttl) t true c [] action ids s ≡ answer_of (action c s)
  unfolding fetch_and_save
  fetch_bypassing c action ids s = answered (action c s)
    where
      answered :
          (r : State × Option Value)
          → elim r.1 as (λ _. State × Reply Value) [
            | none ↦ (r.0, failed action_failed)
            | some resp ↦ (r.0, reply resp)
          ]
            ≡ answer_of r
      answered (u, none) = refl
      answered (u, some v) = refl

  -- GetItem as GetItemClient calls it, without a key of modifications, for an item type whose lifetime is
  -- positive and a key that is not empty: while somebody's sentinel or a tombstone stands in the key, it
  -- only passes on what the server answers, and changes nothing in the cache itself. The server is told of that
  -- conflict, or, where the cache is bypassed, of a fresh tombstone.
  pub get_item_conflict :
      (k : Key) (c : Text) (bypass : Bool) (action : Sentinel → State → State × Option Value)
      (id : Text) (ids : MethodIds) (s : State)
      → 0 < t.ttl
      → k ≢ []
      → get s k ≡ some (str c)
      → is_sentinel_value c ≡ true
      → get_item_client (in_memory g ttl) t k bypass action id ids s
        ≡ answer_of (action (if bypass then generate_tombstone_sentinel id else c) s)
  unfolding get_item_client get_item get_item_from_cache_with_modified_key fetch_and_save
      save_item_to_cache save_item_to_cache_worker text_eq
  get_item_conflict k c true action id ids s l named held mark =
      fetch_bypassing (generate_tombstone_sentinel id) action ids.save_ids s
  get_item_conflict k c false action id ids s l named held mark =
      let e =
        load_of g ttl t.unmarshal t.ttl k ids.load_ids s s (record miss { conflict = some c }) l
          (get_value-seen g ttl k true (ids.load_ids 1) s named (inl (λ n. cc))
            ∙ rw held (rw mark refl)) in
      rw (e, get_item_from_cache_with_modified_key) (fetch_without_lock c action ids.save_ids s)

  -- An item in the cache is returned without a call of the server.
  pub get_item_cached :
      (k : Key) (b : Text) (v : Value) (action : Sentinel → State → State × Option Value)
      (id : Text) (ids : MethodIds) (s : State)
      → 0 < t.ttl
      → k ≢ []
      → get s k ≡ some (str b)
      → is_sentinel_value b ≡ false
      → t.unmarshal b ≡ some v
      → t.is_valid v ≡ true
      → get_item (in_memory g ttl) t k [] false action id ids s ≡ (s, reply v)
  unfolding get_item get_item_from_cache_with_modified_key validate_item
  get_item_cached k b v action id ids s l named held plain read_back valid =
      let e =
        load_of g ttl t.unmarshal t.ttl k ids.load_ids s s (record miss { value = some b }) l
          (get_value-seen g ttl k true (ids.load_ids 1) s named (inl (λ n. cc))
            ∙ rw held (rw plain refl)) in
      rw (e, get_item_from_cache_with_modified_key) (rw read_back (rw valid refl))

  -- The save of an item on which nothing depends, and that depends on nothing, under the lock in its
  -- primary key.
  save_held :
      (v : Value) (b : Text) (sentinel : Sentinel) (ids : SaveIds) (s : State)
      → 0 < t.ttl
      → (t.keys v).primary_key ≢ []
      → (t.keys v).dependency_keys ≡ []
      → (t.keys v).dependencies_key ≡ []
      → t.marshal v ≡ some b
      → sentinel ≢ []
      → get s (t.keys v).primary_key ≡ some (str sentinel)
      → get
          (save_item_to_cache (in_memory g ttl) t v sentinel false [] ids s)
          (t.keys v).primary_key
        ≡ some (str b)
  unfolding save_item_to_cache save_item_to_cache_worker save_marshalled depend_on_others
      depend_on_itself undo_save text_eq
  save_held v b sentinel ids s l named alone alone' m n held =
      let i = t.keys v in
      let key_names = i.secondary_keys ++ (i.primary_key ∷ []) in
      let inside : contains key_names i.primary_key ≡ true =
        contains_last i.secondary_keys i.primary_key in
      let (stored, at) =
        set_value_held g ttl i.primary_key key_names b sentinel t.ttl s l named
          (some_string_key key_names i.primary_key inside named) held in
      rw (not_zero t.ttl l) (
        rw (text_eq_ne sentinel [] n) (
          rw (m, alone, alone', save_marshalled)
            (ground (arith, at i.primary_key, inside, eq_of_text_eq i.primary_key []))))

  fetch_some :
      (k : Key) (v : Value) (sentinel : Sentinel) (action : Sentinel → State → State × Option Value)
      (ids : SaveIds) (s u : State)
      → action [] s ≡ (u, some v)
      → fetch_and_save (in_memory g ttl) t false [] sentinel action ids s
        ≡ (save_item_to_cache (in_memory g ttl) t v sentinel false [] ids u, reply v)
  unfolding fetch_and_save
  fetch_some k v sentinel action ids s u e = rw (e, fetch_and_save) (rw e refl)

  -- Take two calls of GetItem without a key of modifications, where the cache is not bypassed, for an
  -- item type whose lifetime is positive, of one key that is not empty and that holds nothing at first.
  -- If the server answers the first with a valid item that has the key as its primary key, no dependency
  -- keys and no dependencies key, and that is written as a text that is read back as the item and is no
  -- sentinel's, and the read lock of the call still stands in the key after the server's answer, then
  -- the first call returns the item, and the second, from the state that it leaves and whatever its own
  -- action would do, returns the item too and does not change the cache.
  pub get_item_twice :
      (k : Key) (b : Text) (v : Value) (action later : Sentinel → State → State × Option Value)
      (id id' : Text) (ids ids' : MethodIds) (s u : State)
      → 0 < t.ttl
      → k ≢ []
      → get s k ≡ none
      → action [] (get_value g write_through ttl k true (ids.load_ids 1) s).0 ≡ (u, some v)
      → get u k ≡ some (str (generate_sentinel read (ids.load_ids 1)))
      → (t.keys v).primary_key ≡ k
      → (t.keys v).dependency_keys ≡ []
      → (t.keys v).dependencies_key ≡ []
      → t.marshal v ≡ some b
      → t.unmarshal b ≡ some v
      → t.is_valid v ≡ true
      → is_sentinel_value b ≡ false
      → (let first = get_item (in_memory g ttl) t k [] false action id ids s in
          (first.1 ≡ reply v)
          × (get_item (in_memory g ttl) t k [] false later id' ids' first.0 ≡ (first.0, reply v)))
  unfolding get_item get_item_from_cache_with_modified_key
  get_item_twice k b v action later id id' ids ids' s u l named free answered held primary alone
        alone' m r valid plain =
      let sentinel = generate_sentinel read (ids.load_ids 1) in
      let w = (get_value g write_through ttl k true (ids.load_ids 1) s).0 in
      let first = get_item (in_memory g ttl) t k [] false action id ids s in
      let locks = get_value_locks g ttl k (ids.load_ids 1) s named free in
      let e =
        load_of g ttl t.unmarshal t.ttl k ids.load_ids s w (record miss { sentinel = sentinel }) l
          (λ i. (w, locks.0 i)) in
      let done : first
          ≡ (save_item_to_cache (in_memory g ttl) t v sentinel false [] ids.save_ids u, reply v) =
        rw (e, get_item_from_cache_with_modified_key)
          (fetch_some k v sentinel action ids.save_ids w u answered) in
      let kept : get first.0 k ≡ some (str b) =
        subst (λ z. get first.0 z ≡ some (str b)) primary
          (ap (λ z. get z.0 (t.keys v).primary_key) done
            ∙ save_held v b sentinel ids.save_ids u l (λ q. named (sym primary ∙ q)) alone alone' m
                (generate_sentinel-ne read (ids.load_ids 1)) (ap (get u) primary ∙ held)) in
      (ap (λ z. z.1) done, get_item_cached k b v later id' ids' first.0 l named kept plain r valid)
