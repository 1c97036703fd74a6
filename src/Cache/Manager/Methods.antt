-- ===== src/Cache/Manager/Methods.antt =====
-- infra/cache/methods.go: the creates and gets of items. The server is an action, which also carries what
-- other clients do to the cache during its call; it returns none for an error. A nil item is none.
use authzsdk.Prelude.{
  ℕ, Option, none, some, List, [], Bool, true, false, not, ◌&&◌, Text, if◌then◌else◌,
}
use authzsdk.Cache.Sentinel.{Key, Sentinel, create, no_lock_sentinel, generate_tombstone_sentinel}
use authzsdk.Cache.Provider.{Provider}
use authzsdk.Cache.Manager.{ItemType, Reply, reply, failed, nil_input, invalid_item, action_failed}
use authzsdk.Cache.Manager.Locks.{Ids, take_item_lock, release_item_lock}
use authzsdk.Cache.Manager.Loads.{
  Loaded, loaded_or_nothing, get_item_from_cache, get_item_from_cache_with_modified_key,
}
use authzsdk.Cache.Manager.Saves.{SaveIds, save_item_to_cache}

-- The texts of the UUIDs that one create or get draws.
pub record MethodIds : Type 0 where
  pub load_ids : ℕ → Text
  pub lock_ids : Ids
  pub save_ids : SaveIds

module _ (p : Provider) (t : ItemType) where
  open p use {State}
  open t use {Value}

  -- The call of the server and the save of what it returned.
  unfoldable pub act_and_save :
      Value
      → Sentinel
      → Bool
      → List Key
      → (Value → State → State × Option Value)
      → SaveIds
      → State
      → State × Reply Value
  act_and_save v sentinel bypass additional action ids s =
      let r = action v s in
      elim r.1 [
        | none ↦ (r.0, failed action_failed)
        | some resp ↦ (
          if bypass then r.0 else save_item_to_cache p t resp sentinel true additional ids r.0,
          reply resp,
        )
      ]

  -- CreateItem from its lock on; the lock is released behind everything else.
  unfoldable pub create_locked :
      Value
      → Bool
      → List Key
      → (Value → State → State × Option Value)
      → MethodIds
      → State
      → State × Reply Value
  unfolding act_and_save
  create_locked v bypass additional action ids s =
      let locked = take_item_lock p create (t.keys v) ids.lock_ids s in
      elim locked.1 [
        | failed e ↦ (locked.0, failed e)
        | reply sentinel ↦
            let r = act_and_save v sentinel bypass additional action ids.save_ids locked.0 in
            (release_item_lock p create (t.keys v) sentinel r.0, r.1)
      ]

  -- The item that the cache has already, if it equals the input.
  abbrev pub existing : (Value → Value → Bool) → Value → Reply (Loaded Value) → Option Value
  existing equals v (failed e) = none
  existing equals v (reply l) = elim l.item [
    | none ↦ none
    | some w ↦ if equals v w then some w else none
  ]

  unfoldable pub create_item :
      Option Value
      → Key
      → Bool
      → Bool
      → List Key
      → (Value → State → State × Option Value)
      → (Value → Value → Bool)
      → MethodIds
      → State
      → State × Reply Value
  unfolding create_locked
  create_item none key if_not_exists bypass additional action equals ids s = (s, failed nil_input)
  create_item (some v) key if_not_exists bypass additional action equals ids s =
      let found = get_item_from_cache p t key false ids.load_ids s in
      if not (t.is_valid v)
      then (s, failed invalid_item)
      else if if_not_exists && not bypass
      then elim (existing equals v found.1) [
        | some w ↦ (found.0, reply w)
        | none ↦ create_locked v bypass additional action ids found.0
      ]
      else create_locked v bypass additional action ids s

  -- CreateItem of a caller that has no manager, and bypasses the cache.
  unfoldable pub create_item_unmanaged :
      Option Value → (Value → State → State × Option Value) → State → State × Reply Value
  create_item_unmanaged none action s = (s, failed nil_input)
  create_item_unmanaged (some v) action s =
      let r = action v s in
      if not (t.is_valid v)
      then (s, failed invalid_item)
      else elim r.1 [ none ↦ (r.0, failed action_failed) | some resp ↦ (r.0, reply resp) ]

  -- The action of CreateItemServer, which returns the input
  abbrev pub returning : (Value → State → State × Bool) → Value → State → State × Option Value
  returning action v s = let r = action v s in (r.0, if r.1 then some v else none)

  -- CreateItemServer, of a caller with or without a manager
  unfoldable pub create_item_server :
      Bool
      → Option Value
      → List Key
      → (Value → State → State × Bool)
      → MethodIds
      → State
      → State × Reply Value
  unfolding create_item create_item_unmanaged
  create_item_server managed v additional action ids =
      if managed
      then create_item v [] false false additional (returning action) (λ w u. false) ids
      else create_item_unmanaged v (returning action)

  -- The end of GetItem: what the server returns is saved under the lock of the load.
  unfoldable pub fetch_and_save :
      Bool
      → Sentinel
      → Sentinel
      → (Sentinel → State → State × Option Value)
      → SaveIds
      → State
      → State × Reply Value
  fetch_and_save bypass conflict sentinel action ids s =
      let r = action conflict s in
      elim r.1 [
        | none ↦ (r.0, failed action_failed)
        | some resp ↦ (
          if bypass then r.0 else save_item_to_cache p t resp sentinel false [] ids r.0,
          reply resp,
        )
      ]

  abbrev pub unless_found :
      Loaded Value
      → (Sentinel → State → State × Option Value)
      → SaveIds
      → State
      → State × Reply Value
  unless_found l action ids s = elim l.item [
    | some v ↦ (s, reply v)
    | none ↦ fetch_and_save false l.conflict l.lock action ids s
  ]

  unfoldable pub get_item :
      Key
      → Key
      → Bool
      → (Sentinel → State → State × Option Value)
      → Text
      → MethodIds
      → State
      → State × Reply Value
  unfolding fetch_and_save
  get_item key is_modified_key bypass action id ids s =
      let found =
        get_item_from_cache_with_modified_key p t key is_modified_key true ids.load_ids s in
      if bypass
      then fetch_and_save true (generate_tombstone_sentinel id) no_lock_sentinel action ids.save_ids
          s
      else unless_found (loaded_or_nothing found.1) action ids.save_ids found.0

  -- GetItemClient
  unfoldable pub get_item_client :
      Key
      → Bool
      → (Sentinel → State → State × Option Value)
      → Text
      → MethodIds
      → State
      → State × Reply Value
  unfolding get_item
  get_item_client key = get_item key []

  -- ServerGetItem, of a caller with or without a manager
  unfoldable pub server_get_item :
      Bool
      → Key
      → Key
      → (Sentinel → State → State × Option Value)
      → Text
      → MethodIds
      → State
      → State × Reply Value
  unfolding get_item
  server_get_item managed key is_modified_key = get_item key is_modified_key (not managed)
