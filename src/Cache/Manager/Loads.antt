-- ===== src/Cache/Manager/Loads.antt =====
-- infra/cache/api.go: the loads of items, and DeleteItemFromCache.
use authzsdk.Prelude.{
  ℕ, suc, Option, none, some, List, [], ◌∷◌, ◌++◌, Bool, true, false, Text, text_eq, if◌then◌else◌,
  ◌==◌, is_some,
}
use authzsdk.Cache.Sentinel.{Key, Sentinel, no_lock_sentinel, delete}
use authzsdk.Cache.InMemory.Base.{Result, ok, err}
use authzsdk.Cache.InMemory.Values.{Found}
use authzsdk.Cache.Provider.{Provider}
use authzsdk.Cache.Manager.{
  ItemType, Reply, reply, failed, provider_failed, unmarshal_failed, given,
}
use authzsdk.Cache.Manager.Locks.{get_item_lock_keys}

-- What a load returns but for its error: the item or slice, the conflict, the lock.
pub record Loaded {ℓ} (A : Type ℓ) : Type ℓ where
  pub item : Option A
  pub conflict : Sentinel
  pub lock : Sentinel

abbrev pub nothing_loaded {ℓ} : {A : Type ℓ} → Loaded A
nothing_loaded = record { item = none; conflict = []; lock = [] }

-- What a load tells a caller that only logs its error: then there is neither conflict nor lock.
abbrev pub loaded_or_nothing {ℓ} : {A : Type ℓ} → Reply (Loaded A) → Loaded A
loaded_or_nothing (failed e) = nothing_loaded
loaded_or_nothing (reply l) = l

abbrev pub or_no_lock : Option Text → Sentinel
or_no_lock none = no_lock_sentinel
or_no_lock (some c) = c

abbrev pub unmarshalled {ℓ} : {A : Type ℓ} → Option A → Sentinel → Loaded A
unmarshalled none conflict = record { item = none; conflict = conflict; lock = [] }
unmarshalled (some a) conflict = record { item = some a; conflict = conflict; lock = [] }

-- What the worker returns for a raw value, a conflict and a lock.
abbrev pub decoded {ℓ} :
    {A : Type ℓ} → (Text → Option A) → Option Text → Option Text → Sentinel → Loaded A
decoded unmarshal none conflict lock = record {
  item = none;
  conflict = or_no_lock conflict;
  lock = lock;
}
decoded unmarshal (some raw) conflict lock = unmarshalled (unmarshal raw) (or_no_lock conflict)

abbrev pub fetched {ℓ} : {A : Type ℓ} → (Text → Option A) → Result Found → Reply (Loaded A)
fetched unmarshal (ok f) = reply (decoded unmarshal f.value f.conflict f.sentinel)
fetched unmarshal (err e) = failed provider_failed

-- The results of GetValues for the key and its isModified key: the value of the first, the conflict of
-- the second. The lock is the first one's, unless the cache is layered, which had asked before; what
-- that first call said stays where GetValues returns another number of results.
abbrev pub fetched_pair {ℓ} :
    {A : Type ℓ}
    → (Text → Option A)
    → Bool
    → Option Text
    → Sentinel
    → Result (List Found)
    → Reply (Loaded A)
fetched_pair unmarshal layered conflict lock (ok (f ∷ m ∷ [])) =
    reply (decoded unmarshal f.value m.conflict (if layered then lock else f.sentinel))
fetched_pair unmarshal layered conflict lock (ok _) = reply (decoded unmarshal none conflict lock)
fetched_pair unmarshal layered conflict lock (err e) = failed provider_failed

abbrev pub has_value : Result Found → Bool
has_value (ok f) = is_some f.value
has_value (err e) = false

abbrev pub conflict_of : Result Found → Option Text
conflict_of (ok f) = f.conflict
conflict_of (err e) = none

abbrev pub lock_of : Result Found → Sentinel
lock_of (ok f) = f.sentinel
lock_of (err e) = no_lock_sentinel

module _ (p : Provider) where
  open p use {State, get_value, get_values, delete_value}

  module _ {ℓ} {A : Type ℓ} (unmarshal : Text → Option A) (ttl : ℕ) where
    unfoldable pub get_item_from_cache_worker :
        Key → Key → Bool → (ℕ → Text) → State → State × Reply (Loaded A)
    get_item_from_cache_worker key is_modified_key lock_on_miss ids s =
        let one = get_value key lock_on_miss (ids 0) s in
        let inner =
          get_values (key ∷ is_modified_key ∷ []) (false ∷ false ∷ []) (λ n. ids (suc n)) one.0 in
        let pair =
          get_values (key ∷ is_modified_key ∷ []) (lock_on_miss ∷ false ∷ []) (λ n. ids (suc n))
            s in
        if ttl == 0
        then (s, reply nothing_loaded)
        else if text_eq is_modified_key []
        then (one.0, fetched unmarshal one.1)
        else if p.layered
        then (if has_value one.1
            then (one.0, fetched unmarshal one.1)
            else (inner.0, fetched_pair unmarshal true (conflict_of one.1) (lock_of one.1) inner.1))
        else (pair.0, fetched_pair unmarshal false none [] pair.1)

  module _ (t : ItemType) where
    open t use {Value}

    -- validateItem, on a value that was loaded from the key: an invalid one is deleted there.
    unfoldable pub validate_item : Value → Key → Text → State → State × Bool
    validate_item v key id s =
        if t.is_valid v then (s, true) else ((delete_value (key ∷ []) false true id s).0, false)

    abbrev pub validated : Loaded Value → Key → Text → State → State × Reply (Loaded Value)
    validated l key id s = elim l.item [
      | none ↦ (s, reply l)
      | some v ↦
          if (validate_item v key id s).1
          then (s, reply l)
          else ((validate_item v key id s).0, reply nothing_loaded)
    ]

    abbrev pub validated_reply :
        State × Reply (Loaded Value) → Key → Text → State × Reply (Loaded Value)
    validated_reply (s, failed e) key id = (s, failed e)
    validated_reply (s, reply l) key id = validated l key id s

    unfoldable pub get_item_from_cache_with_modified_key :
        Key → Key → Bool → (ℕ → Text) → State → State × Reply (Loaded Value)
    unfolding get_item_from_cache_worker validate_item
    get_item_from_cache_with_modified_key key is_modified_key lock_on_miss ids s =
        validated_reply
          (get_item_from_cache_worker t.unmarshal t.ttl key is_modified_key lock_on_miss
            (λ n. ids (suc n)) s)
          key (ids 0)

    unfoldable pub get_item_from_cache :
        Key → Bool → (ℕ → Text) → State → State × Reply (Loaded Value)
    unfolding get_item_from_cache_with_modified_key
    get_item_from_cache key lock_on_miss ids s =
        get_item_from_cache_with_modified_key key [] lock_on_miss ids s

    -- The loop over the items of a slice: the first invalid one ends it.
    unfoldable pub validate_all : List Value → Key → Text → State → State × Bool
    unfolding validate_item
    validate_all [] key id s = (s, true)
    validate_all (v ∷ vs) key id s =
        let rest = validate_all vs key id s in
        if (validate_item v key id s).1 then rest else ((validate_item v key id s).0, false)

    abbrev pub validated_all :
        State × Reply (Loaded (List Value)) → Key → Text → State × Reply (Loaded (List Value))
    validated_all (s, failed e) key id = (s, failed e)
    validated_all (s, reply l) key id = elim l.item [
      | none ↦ (s, reply l)
      | some vs ↦
          let r = validate_all vs key id s in (r.0, if r.1 then reply l else reply nothing_loaded)
    ]

    unfoldable pub get_items_array_from_cache :
        Key → Bool → (ℕ → Text) → State → State × Reply (Loaded (List Value))
    unfolding get_item_from_cache_worker validate_all
    get_items_array_from_cache key lock_on_miss ids s =
        validated_all
          (get_item_from_cache_worker t.unmarshal_all t.ttl key [] lock_on_miss (λ n. ids (suc n))
            s)
          key (ids 0)

    -- One value of GetItemsFromCache: none is a value that cannot be unmarshalled.
    unfoldable pub load_value : Option Text → Key → Text → State → State × Option (Option Value)
    unfolding validate_item
    load_value none key id s = (s, some none)
    load_value (some raw) key id s = elim (t.unmarshal raw) [
      | none ↦ (s, none)
      | some v ↦ let r = validate_item v key id s in (r.0, some (if r.1 then some v else none))
    ]

    abbrev pub cons_value :
        Option Value → State × Option (List (Option Value)) → State × Option (List (Option Value))
    cons_value v (s, none) = (s, none)
    cons_value v (s, some vs) = (s, some (v ∷ vs))

    unfoldable pub load_values :
        List Found → List Key → (ℕ → Text) → State → State × Option (List (Option Value))
    unfolding load_value
    load_values [] keys ids s = (s, some [])
    load_values (f ∷ fs) [] ids s = (s, some [])
    load_values (f ∷ fs) (key ∷ keys) ids s =
        let r = load_value f.value key (ids 0) s in
        let rest = load_values fs keys (λ n. ids (suc n)) r.0 in
        elim r.1 [ none ↦ (r.0, none) | some v ↦ cons_value v rest ]

    abbrev pub sentinels_of : List Found → List Sentinel
    sentinels_of [] = []
    sentinels_of (f ∷ fs) = f.sentinel ∷ sentinels_of fs

    abbrev pub loaded_values :
        List Found
        → State × Option (List (Option Value))
        → State × Reply (List (Option Value) × List Sentinel)
    loaded_values fs (s, none) = (s, failed unmarshal_failed)
    loaded_values fs (s, some vs) = (s, reply (vs, sentinels_of fs))

    unfoldable pub get_items_from_cache :
        List Key
        → List Bool
        → (ℕ → Text)
        → (ℕ → Text)
        → State
        → State × Reply (List (Option Value) × List Sentinel)
    unfolding load_values
    get_items_from_cache keys locks_on_miss ids tombstones s =
        let r = get_values keys locks_on_miss ids s in
        if t.ttl == 0 then (s, reply ([], [])) else elim r.1 [
          | err e ↦ (r.0, failed provider_failed)
          | ok fs ↦ loaded_values fs (load_values fs keys tombstones r.0)
        ]

    unfoldable pub delete_item_from_cache : Value → Sentinel → Text → State → State
    unfolding get_item_lock_keys
    delete_item_from_cache v sentinel id s =
        let i = t.keys v in
        if text_eq sentinel []
        then s
        else (delete_value
            (get_item_lock_keys delete i
              ++ given i.is_modified_key
              ++ given i.is_modified_collection_key)
            true true id s).0
