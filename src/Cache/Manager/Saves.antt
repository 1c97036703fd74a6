-- ===== src/Cache/Manager/Saves.antt =====
-- infra/cache/api.go: the saves of items and of collections.
use authzsdk.Prelude.{
  ℕ, none, some, List, [], ◌∷◌, ◌++◌, Bool, true, false, not, ◌&&◌, ◌||◌, Text, text_eq, contains,
  if◌then◌else◌, ◌==◌, ltb, length,
}
use authzsdk.Cache.Sentinel.{Key, Sentinel}
use authzsdk.Cache.InMemory.Base.{Result, ok, err}
use authzsdk.Cache.InMemory.Values.{Stored}
use authzsdk.Cache.Provider.{Provider}
use authzsdk.Cache.Manager.{ItemKeys, ItemType, given}

abbrev pub is_err {ℓ} : {A : Type ℓ} → Result A → Bool
is_err (ok a) = false
is_err (err e) = true

-- The result `stored` of SetValue, false beside an error.
abbrev pub was_stored : Result Stored → Bool
was_stored (ok r) = r.stored
was_stored (err e) = false

abbrev pub is_nil {ℓ} : {A : Type ℓ} → List A → Bool
is_nil [] = true
is_nil (x ∷ xs) = false

-- The texts of the UUIDs that one save draws.
pub record SaveIds : Type 0 where
  pub collections_id : Text
  pub dependencies_id : Text
  pub pages_id : Text
  pub undo_id : Text

module _ (p : Provider) where
  open p use {State, set_value, delete_value, add_dependency, clear_dependencies}

  -- A save on its way: the variables keyset and clearKeysOnError.
  pub record Saving : Type 0 where
    pub state : State
    pub keyset : Bool
    pub undo : Bool

  -- After a step of a save that an error of the provider undoes.
  abbrev pub undone_if : {A : Type 0} → State × Result A → Saving → Saving
  undone_if (s, r) v = record {
    state = s;
    keyset = v.keyset && not (is_err r);
    undo = v.undo || is_err r;
  }

  -- The collections that an item may appear in.
  abbrev pub collection_keys : ItemKeys Key → List Key → List Key
  collection_keys i additional =
      (if text_eq i.is_modified_collection_key [] then given i.global_collection_key else [])
      ++ given i.is_modified_key
      ++ given i.is_modified_collection_key
      ++ additional

  unfoldable pub clear_collections : ItemKeys Key → List Key → SaveIds → Saving → Saving
  clear_collections i additional ids v =
      let cleared =
        undone_if (delete_value (collection_keys i additional) true true ids.collections_id v.state)
          v in
      let depended =
        undone_if (clear_dependencies i.dependencies_key false ids.dependencies_id cleared.state)
          cleared in
      let w = if text_eq i.dependencies_key [] then cleared else depended in
      let paged = (clear_dependencies i.global_collection_pages_key false ids.pages_id w.state).0 in
      if text_eq i.global_collection_pages_key []
      then w
      else record { state = paged; keyset = w.keyset; undo = w.undo }

  -- AddDependency of the item on those it depends on.
  unfoldable pub depend_on_others : ItemKeys Key → List Key → ℕ → Saving → Saving
  depend_on_others i key_names ttl v =
      let added = undone_if (add_dependency i.dependency_keys key_names ttl v.state) v in
      if not (is_nil i.dependency_keys) && v.keyset then added else v

  -- AddDependency of the item's secondary keys on itself; an error leaves keyset.
  unfoldable pub depend_on_itself : ItemKeys Key → ℕ → Saving → Saving
  depend_on_itself i ttl v =
      let r = add_dependency (i.dependencies_key ∷ []) i.secondary_keys ttl v.state in
      if not (text_eq i.dependencies_key []) && v.keyset && not (is_nil i.secondary_keys)
      then record { state = r.0; keyset = v.keyset; undo = v.undo || is_err r.1 }
      else v

  unfoldable pub undo_save : List Key → Text → Saving → State
  undo_save key_names id v =
      if v.undo then (delete_value key_names true true id v.state).0 else v.state

  module _ (t : ItemType) where
    open t use {Value, ttl}

    unfoldable pub save_marshalled :
        Text → ItemKeys Key → Key → Sentinel → Bool → List Key → SaveIds → State → State
    unfolding clear_collections depend_on_others depend_on_itself undo_save
    save_marshalled b i lkey sentinel clear_collection additional ids s =
        let key_names = i.secondary_keys ++ (i.primary_key ∷ []) in
        let r = set_value lkey key_names b sentinel ttl s in
        let set : Saving = record { state = r.0; keyset = was_stored r.1; undo = false } in
        let cleared = if clear_collection then clear_collections i additional ids set else set in
        undo_save key_names ids.undo_id
          (depend_on_itself i ttl (depend_on_others i key_names ttl cleared))

    unfoldable pub save_item_to_cache_worker :
        Value → Key → Sentinel → Bool → List Key → SaveIds → State → State
    unfolding save_marshalled
    save_item_to_cache_worker v lkey sentinel clear_collection additional ids s =
        if ttl == 0 then s else if text_eq sentinel [] then s else elim (t.marshal v) [
          | none ↦ s
          | some b ↦ save_marshalled b (t.keys v) lkey sentinel clear_collection additional ids s
        ]

    unfoldable pub save_item_to_cache : Value → Sentinel → Bool → List Key → SaveIds → State → State
    unfolding save_item_to_cache_worker
    save_item_to_cache v = save_item_to_cache_worker v (t.keys v).primary_key

    unfoldable pub save_items_from_collection_to_cache :
        List Value → Sentinel → (Value → SaveIds) → State → State
    unfolding save_item_to_cache_worker
    save_items_from_collection_to_cache [] sentinel ids s = s
    save_items_from_collection_to_cache (v ∷ vs) sentinel ids s =
        save_items_from_collection_to_cache vs sentinel ids
          (save_item_to_cache_worker v (t.keys v).global_collection_key sentinel false [] (ids v) s)

  -- The keys that one item of a collection depends on: those not met and not empty, and the map of those
  -- met.
  abbrev pub new_keys_of : List Key → List Key → List Key × List Key
  new_keys_of met [] = ([], met)
  new_keys_of met (k ∷ keys) =
      let fresh = new_keys_of (k ∷ met) keys in
      let old = new_keys_of met keys in
      if not (contains met k) && not (text_eq k []) then (k ∷ fresh.0, fresh.1) else old

  -- The loop over the items of a collection: dependentKeys and dependentItems.
  unfoldable pub dependent_keys : List Key → List (ItemKeys Key) → List Key × List Key
  dependent_keys met [] = ([], met)
  dependent_keys met (i ∷ rest) =
      let (new, met') = new_keys_of met i.dependency_keys in
      let own =
        if not (text_eq i.dependencies_key []) && not (contains met' i.dependencies_key)
        then i.dependencies_key ∷ []
        else [] in
      let (keys, met'') = dependent_keys met' rest in (new ++ own ++ keys, met'')

  abbrev pub max_dependencies : ℕ
  max_dependencies = 100

  -- What a collection of one item does before it is saved: whether to save it, none for not at all.
  unfoldable pub prepare_collection :
      ItemKeys Key → List (ItemKeys Key) → Key → ℕ → State → State × Bool
  unfolding dependent_keys
  prepare_collection i items col_key ttl s =
      let (keys, met) = dependent_keys [] items in
      let own =
        if not (text_eq i.dependencies_key []) && not (contains met i.dependencies_key)
        then i.dependencies_key ∷ []
        else [] in
      let r = add_dependency (keys ++ own) (col_key ∷ []) ttl s in
      if ltb max_dependencies (length keys)
      then (s, false)
      else if is_nil (keys ++ own)
      then (s, true)
      else (r.0, not (is_err r.1))

  unfoldable pub prepare_page : ItemKeys Key → Key → ℕ → State → State × Bool
  prepare_page i col_key ttl s =
      let r = add_dependency (i.global_collection_pages_key ∷ []) (col_key ∷ []) ttl s in
      if not (text_eq i.global_collection_pages_key [])
        && not (text_eq col_key i.global_collection_key)
      then (r.0, not (is_err r.1))
      else (s, true)

  module _ (t u : ItemType) where
    unfoldable pub keys_of_all : List u.Value → List (ItemKeys Key)
    keys_of_all [] = []
    keys_of_all (v ∷ vs) = u.keys v ∷ keys_of_all vs

    abbrev pub store_collection : Key → Key → Text → Sentinel → State × Bool → State
    store_collection lock_key col_key b sentinel (s, save) =
        if save then (set_value lock_key (col_key ∷ []) b sentinel t.ttl s).0 else s

    unfoldable pub save_items_to_collection :
        t.Value → List u.Value → Key → Key → Sentinel → Bool → State → State
    unfolding prepare_collection prepare_page keys_of_all
    save_items_to_collection v items lock_key col_key sentinel is_global s =
        if t.ttl == 0 || text_eq col_key [] || text_eq lock_key [] || text_eq sentinel []
        then s
        else elim (u.marshal_all items) [
          | none ↦ s
          | some b ↦ store_collection lock_key col_key b sentinel (
              if is_global
              then prepare_page (t.keys v) col_key t.ttl s
              else prepare_collection (t.keys v) (keys_of_all items) col_key t.ttl s)
        ]
