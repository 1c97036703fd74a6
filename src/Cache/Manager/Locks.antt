-- ===== src/Cache/Manager/Locks.antt =====
-- infra/cache/api.go: the locks that a manager takes and releases.
use authzsdk.Prelude.{List, [], ◌∷◌, ◌++◌, Bool, true, false, Text, text_eq, if◌then◌else◌}
use authzsdk.Cache.Sentinel.{Key, Sentinel, SentinelType, create, update, delete, read}
use authzsdk.Cache.InMemory.Base.{Result, ok, err}
use authzsdk.Cache.Provider.{Provider}
use authzsdk.Cache.Manager.{
  ItemKeys, Reply, reply, failed, lock_conflict, unexpected_lock_type, given,
}

unfoldable pub get_item_lock_keys : SentinelType → ItemKeys Key → List Key
get_item_lock_keys create i = i.primary_key ∷ (given i.global_collection_key ++ i.secondary_keys)
get_item_lock_keys update i = i.primary_key ∷ (given i.global_collection_key ++ i.secondary_keys)
get_item_lock_keys delete i =
    i.primary_key
    ∷ (given i.global_collection_key ++ i.secondary_keys ++ given i.per_item_collection_key)
get_item_lock_keys read i = i.primary_key ∷ []

-- The texts of the UUIDs that one operation draws: of its sentinel, and of two tombstones.
pub record Ids : Type 0 where
  pub sentinel_id : Text
  pub pages_id : Text
  pub tombstone_id : Text

abbrev pub is_collection_lock : SentinelType → Bool
is_collection_lock delete = true
is_collection_lock read = true
is_collection_lock _ = false

module _ (p : Provider) where
  open p use {State, clear_dependencies, write_sentinel}

  unfoldable pub clear_pages : ItemKeys Key → Text → State → State
  clear_pages i id s =
      if text_eq i.global_collection_pages_key []
      then s
      else (clear_dependencies i.global_collection_pages_key false id s).0

  abbrev pub answered : Sentinel → Result (Unit {0}) → Reply Sentinel
  answered sentinel (ok u) = reply sentinel
  answered sentinel (err e) = failed lock_conflict

  unfoldable pub clear_for_delete : ItemKeys Key → Ids → Sentinel → State → State × Reply Sentinel
  unfolding clear_pages
  clear_for_delete i ids sentinel s =
      let cleared =
        clear_dependencies i.dependencies_key true ids.tombstone_id
          (clear_pages i ids.pages_id s) in
      if text_eq i.dependencies_key []
      then (clear_pages i ids.pages_id s, reply sentinel)
      else (cleared.0, answered sentinel cleared.1)

  unfoldable pub clear_on_delete :
      SentinelType → ItemKeys Key → Ids → Result Sentinel → State → State × Reply Sentinel
  unfolding clear_for_delete
  clear_on_delete delete i ids (ok sentinel) s = clear_for_delete i ids sentinel s
  clear_on_delete _ i ids (ok sentinel) s = (s, reply sentinel)
  clear_on_delete _ i ids (err e) s = (s, failed lock_conflict)

  unfoldable pub take_lock_worker :
      SentinelType → ItemKeys Key → List Key → Ids → State → State × Reply Sentinel
  unfolding clear_on_delete
  take_lock_worker stype i keys ids s =
      let r = write_sentinel stype keys ids.sentinel_id s in clear_on_delete stype i ids r.1 r.0

  unfoldable pub take_item_lock : SentinelType → ItemKeys Key → Ids → State → State × Reply Sentinel
  unfolding get_item_lock_keys take_lock_worker
  take_item_lock stype i ids s = take_lock_worker stype i (get_item_lock_keys stype i) ids s

  unfoldable pub take_per_item_collection_lock :
      SentinelType → List Key → ItemKeys Key → Ids → State → State × Reply Sentinel
  unfolding take_lock_worker
  take_per_item_collection_lock stype additional i ids s =
      if is_collection_lock stype
      then take_lock_worker stype i (i.per_item_collection_key ∷ additional) ids s
      else (s, failed unexpected_lock_type)

  unfoldable pub take_global_collection_lock :
      SentinelType → ItemKeys Key → Ids → State → State × Reply Sentinel
  unfolding take_lock_worker
  take_global_collection_lock stype i ids s =
      if is_collection_lock stype
      then take_lock_worker stype i (i.global_collection_key ∷ []) ids s
      else (s, failed unexpected_lock_type)

  unfoldable pub release_item_lock : SentinelType → ItemKeys Key → Sentinel → State → State
  unfolding get_item_lock_keys
  release_item_lock stype i sentinel s =
      if text_eq sentinel [] then s else p.release_sentinel (get_item_lock_keys stype i) sentinel s

  unfoldable pub release_per_item_collection_lock :
      List Key → ItemKeys Key → Sentinel → State → State
  release_per_item_collection_lock additional i sentinel s =
      if text_eq sentinel []
      then s
      else p.release_sentinel (i.per_item_collection_key ∷ additional) sentinel s
