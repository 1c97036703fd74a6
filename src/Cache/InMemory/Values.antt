-- ===== src/Cache/InMemory/Values.antt =====
-- infra/cache/inmemory_provider.go: `SetValue`, `GetValue`, `GetValues` and `DeleteValue`.
use authzsdk.Prelude.{
  ℕ, suc, Option, none, some, List, [], ◌∷◌, ◌++◌, Bool, true, false, ◌&&◌, Text, text_eq,
  if◌then◌else◌, length, ltb, ◌==◌,
}
use authzsdk.Cache.Sentinel.{
  Key, Sentinel, Verdict, SentinelManager, no_lock_sentinel, generate_tombstone_sentinel, read,
}
use authzsdk.Cache.Store.{Item, str, arr, GoCache}
use authzsdk.Cache.InMemory.Base.{
  Result, ok, err, no_keys, lengths_differ, mem_sentinel_ttl, as_string,
  get_string_keys_from_cache_keys, in_mem_multi_set, in_mem_multi_delete, in_mem_multi_expire,
}

-- The results of `SetValue`: stored, conflict.
pub record Stored : Type 0 where
  pub stored : Bool
  pub conflict : Bool

-- The results of `GetValue`: value, conflict, sentinel.
pub record Found : Type 0 where
  pub value : Option Text
  pub conflict : Option Text
  pub sentinel : Sentinel

abbrev pub miss : Found
miss = record { value = none; conflict = none; sentinel = no_lock_sentinel }

-- `keysToGet`, with the results at the index that it holds.
unfoldable pub lookup : Key → List (Key × Found) → Option Found
lookup k [] = none
lookup k ((j, f) ∷ seen) = if text_eq j k then some f else lookup k seen

abbrev pub cons_found : {S : Type 0} → Found → S × Result (List Found) → S × Result (List Found)
cons_found f (s, ok fs) = (s, ok (f ∷ fs))
cons_found f (s, err e) = (s, err e)

module _ (g : GoCache) (sm : SentinelManager) (tombstone_ttl : ℕ) where
  open g use {State, get, set, delete}

  -- What `SetValue` does by the verdict on the string in the lock key.
  unfoldable pub apply_verdict :
      Verdict → List Text → Text → Text → Sentinel → ℕ → State → State × Stored
  apply_verdict v keys curr val sentinel ttl s =
      if v.set
      then ((in_mem_multi_set g keys val false ttl s).0, record { stored = true; conflict = false })
      else if v.clear
      then (in_mem_multi_delete g keys s, record { stored = false; conflict = false })
      else if v.conflict
      then (
        (in_mem_multi_set g keys (curr ++ sentinel) false mem_sentinel_ttl s).0,
        record { stored = false; conflict = true },
      )
      else if v.refresh
      then (
        (in_mem_multi_expire g keys tombstone_ttl s).0,
        record { stored = false; conflict = false },
      )
      else (s, record { stored = false; conflict = true })

  unfoldable pub set_value_at :
      Option Text → List Text → Text → Sentinel → ℕ → State → State × Stored
  unfolding apply_verdict
  set_value_at (some curr) keys val sentinel ttl s =
      apply_verdict (sm.can_set curr val sentinel) keys curr val sentinel ttl s
  set_value_at none keys val sentinel ttl s = (s, record { stored = false; conflict = false })

  unfoldable pub set_value : Key → List Key → Text → Sentinel → ℕ → State → State × Result Stored
  unfolding set_value_at
  set_value lkey keys_to_set val sentinel ttl s =
      let keys = get_string_keys_from_cache_keys keys_to_set in
      if length keys == 0
      then (s, err no_keys)
      else if text_eq lkey []
      then (s, err no_keys)
      else (let r = set_value_at (as_string (get s lkey)) keys val sentinel ttl s in (r.0, ok r.1))

  unfoldable pub get_value_at : Option Item → Key → Bool → Text → State → State × Found
  get_value_at none key lock_on_miss id s =
      let sentinel = sm.generate read id in
      let r = in_mem_multi_set g (key ∷ []) sentinel true mem_sentinel_ttl s in
      if lock_on_miss
      then (r.0, if r.1 then record miss { sentinel = sentinel } else miss)
      else (s, miss)
  get_value_at (some (str value)) key lock_on_miss id s = (
    s,
    if sm.is_sentinel value
        then record miss { conflict = some value }
        else record miss { value = some value },
  )
  get_value_at (some (arr l)) key lock_on_miss id s = (s, miss)

  unfoldable pub get_value : Key → Bool → Text → State → State × Result Found
  unfolding get_value_at
  get_value key lock_on_miss id s =
      let r = get_value_at (get s key) key lock_on_miss id s in
      if text_eq key [] then (s, err no_keys) else (r.0, ok r.1)

  -- The loop of `GetValues`; `seen` has the results of the keys met before.
  unfoldable pub get_values_from :
      List (Key × Found) → List Key → List Bool → (ℕ → Text) → State → State × Result (List Found)
  unfolding get_value
  get_values_from seen [] locks ids s = (s, ok [])
  get_values_from seen (k ∷ keys) [] ids s = (s, err lengths_differ)
  get_values_from seen (k ∷ keys) (lock ∷ locks) ids s = elim (lookup k seen) [
    | some f ↦ cons_found f (get_values_from seen keys locks (λ i. ids (suc i)) s)
    | none ↦
        let r = get_value k lock (ids 0) s in
        elim r.1 [
          | err e ↦ (r.0, err e)
          | ok f ↦ cons_found f (get_values_from ((k, f) ∷ seen) keys locks (λ i. ids (suc i)) r.0)
        ]
  ]

  unfoldable pub get_values :
      List Key → List Bool → (ℕ → Text) → State → State × Result (List Found)
  unfolding get_values_from
  get_values keys lock_on_miss ids s =
      if length keys == length lock_on_miss
      then get_values_from [] keys lock_on_miss ids s
      else (s, err lengths_differ)

  -- The loop of `DeleteValue` over the keys that are not locked.
  unfoldable pub delete_unlocked_at : Option Item → Text → Bool → Sentinel → State → State
  delete_unlocked_at none k set_tombstone tombstone s = s
  delete_unlocked_at (some (str v)) k set_tombstone tombstone s =
      if sm.is_sentinel v
      then s
      else if set_tombstone
      then set s k (str tombstone) tombstone_ttl
      else delete s k
  delete_unlocked_at (some (arr l)) k set_tombstone tombstone s =
      if set_tombstone then set s k (str tombstone) tombstone_ttl else delete s k

  unfoldable pub delete_unlocked : List Text → Bool → Sentinel → State → State
  unfolding delete_unlocked_at
  delete_unlocked [] set_tombstone tombstone s = s
  delete_unlocked (k ∷ keys) set_tombstone tombstone s =
      delete_unlocked keys set_tombstone tombstone
        (delete_unlocked_at (get s k) k set_tombstone tombstone s)

  unfoldable pub delete_value : List Key → Bool → Bool → Text → State → State
  unfolding delete_unlocked
  delete_value keys_in set_tombstone force id s =
      let keys = get_string_keys_from_cache_keys keys_in in
      let tombs = set_tombstone && ltb 0 tombstone_ttl in
      let tombstone = generate_tombstone_sentinel id in
      if force
      then (if tombs
          then (in_mem_multi_set g keys tombstone false tombstone_ttl s).0
          else in_mem_multi_delete g keys s)
      else delete_unlocked keys tombs tombstone s
