-- ===== src/Authz/Client/Pages.antt =====
-- authz/client.go: the list operations that read one page, ListObjectsFromQuery, GetObjectForName and
-- ListEdgesOnObject. `nil` is the text of uuid.Nil.
use authzsdk.Prelude.{
  ℕ, none, some, List, [], ◌∷◌, ◌++◌, Bool, true, false, not, ◌&&◌, ◌||◌, Text, lit, text_eq,
  if◌then◌else◌, length, leb, ℤ, pos, negsuc,
}
use authzsdk.Pagination.Types.{ResponseFields}
use authzsdk.Pagination.Options.{Opt}
use authzsdk.Pagination.Pager.{apply_options, pager_or_none}
use authzsdk.Pagination.Query.{query}
use authzsdk.Cache.Sentinel.{Key, Sentinel, no_lock_sentinel}
use authzsdk.Cache.Provider.{Provider}
use authzsdk.Cache.Manager.Locks.{release_per_item_collection_lock}
use authzsdk.Cache.Manager.Loads.{
  Loaded, loaded_or_nothing, get_item_from_cache, get_items_array_from_cache,
}
use authzsdk.Cache.Manager.Saves.{
  SaveIds, save_items_from_collection_to_cache, save_items_to_collection,
}
use authzsdk.Authz.KeyNames.{
  get_key_name, object_collection_key_id, obj_alias_name_key_id, obj_edges_key_id,
}
use authzsdk.Authz.Items.{named}
use authzsdk.Authz.Models.{Object, Edge}
use authzsdk.Authz.Client.{
  Sent, answer, refused, broken, Outcome, got, error, error_of, not_found, bad_input,
  request_failed, Page, Api, Options,
}
use authzsdk.Authz.Client.Types.{Setup, Codec, name_of, object_items, edge_items, object_with_id}

abbrev pub no_more : ResponseFields
no_more = record { has_next = false; next = []; has_prev = false; prev = [] }

-- A comparison of the number of items with a limit.
abbrev pub fits : ℕ → ℤ → Bool
fits n (pos limit) = leb n limit
fits n (negsuc limit) = false

module _ (p : Provider) (c : Setup) (o : Options) where
  open p use {State}

  module _ (j : Codec Object) (nil : Text) where
    abbrev pub object_collection_key : Key
    object_collection_key = name_of (get_key_name c.base object_collection_key_id [])

    -- The objects of a page are saved under their keys.
    abbrev pub page_saved :
        Sentinel → (Object → SaveIds) → State × Sent (Page Object) → State × Outcome (Page Object)
    page_saved lock ids (s, answer page) =
        (save_items_from_collection_to_cache p (object_items c j) page.data_ lock ids s, got page)
    page_saved lock ids (s, refused status body) = (s, error request_failed)
    page_saved lock ids (s, broken) = (s, error request_failed)

    abbrev pub collection_released :
        Sentinel → State × Outcome (Page Object) → State × Outcome (Page Object)
    collection_released lock (s, r) = (
      release_per_item_collection_lock p (object_collection_key ∷ [])
          ((object_items c j).keys (object_with_id nil nil)) lock s,
      r,
    )

    unfoldable pub list_objects_from_query :
        Api State Object
        → List (Text × Text)
        → (ℕ → Text)
        → (Object → SaveIds)
        → State
        → State × Outcome (Page Object)
    list_objects_from_query api pairs ids save_ids s =
        let organization =
          if c.is_nil o.organization_id
          then []
          else (lit "organization_id", o.organization_id) ∷ [] in
        let request = api.get_page (lit "/authz/objects") (pairs ++ organization) in
        let r = get_items_array_from_cache p (object_items c j) object_collection_key true ids s in
        let lock = (loaded_or_nothing r.1).lock in
        if o.bypass_cache
        then page_saved no_lock_sentinel save_ids (request s)
        else collection_released lock (page_saved lock save_ids (request r.0))

    -- The first object of the page.
    abbrev pub first_object : State × Outcome (Page Object) → State × Outcome Object
    first_object (s, error e) = (s, error e)
    first_object (s, got page) = elim page.data_ [ [] ↦ (s, error not_found) | x ∷ xs ↦ (s, got x) ]

    -- The page of the objects of a type and name.
    unfoldable pub objects_named :
        Api State Object
        → Text
        → Text
        → (ℕ → Text)
        → (Object → SaveIds)
        → State
        → State × Outcome Object
    unfolding list_objects_from_query
    objects_named api type_id name ids save_ids s = elim (pager_or_none (apply_options [])) [
      | none ↦ (s, error bad_input)
      | some pager ↦ first_object (
          list_objects_from_query api
            (query pager ++ ((lit "type_id", type_id) ∷ (lit "name", name) ∷ [])) ids save_ids s)
    ]

    unfoldable pub get_object_for_name :
        Text
        → Api State Object
        → Text
        → Text
        → (ℕ → Text)
        → (ℕ → Text)
        → (Object → SaveIds)
        → State
        → State × Outcome Object
    unfolding objects_named
    get_object_for_name user_object_type_id api type_id name load_ids ids save_ids s =
        let key =
          name_of
            (get_key_name c.base obj_alias_name_key_id (type_id ∷ name ∷ o.organization_id ∷ [])) in
        let found = get_item_from_cache p (object_items c j) key false load_ids s in
        let run = λ (w : State). objects_named api type_id name ids save_ids w in
        if text_eq type_id user_object_type_id || text_eq name []
        then (s, error bad_input)
        else if o.bypass_cache
        then run s
        else elim (loaded_or_nothing found.1).item [
          | some v ↦ (found.0, got v)
          | none ↦ run found.0
        ]

  module _ (jo : Codec Object) (j : Codec Edge) (nil : Text) where
    -- Only edges that fit on one page are saved as all edges of the object.
    abbrev pub one_page_saved :
        Object → Key → Sentinel → State × Sent (Page Edge) → State × Outcome (Page Edge)
    one_page_saved obj key lock (s, answer page) = (
      if not page.has_next && not page.has_prev
          then save_items_to_collection p (object_items c jo) (edge_items c j) obj page.data_ key
              key lock false s
          else s,
      got page,
    )
    one_page_saved obj key lock (s, refused status body) = (s, error (error_of status))
    one_page_saved obj key lock (s, broken) = (s, error request_failed)

    abbrev pub object_released :
        Object → Sentinel → State × Outcome (Page Edge) → State × Outcome (Page Edge)
    object_released obj lock (s, r) =
        (release_per_item_collection_lock p [] ((object_items c jo).keys obj) lock s, r)

    -- What ListEdgesOnObject does behind the lookup: too many edges for a page are asked for again.
    abbrev pub unless_on_page :
        (State → State × Sent (Page Edge))
        → Object
        → Key
        → ℤ
        → State × Loaded (List Edge)
        → State × Outcome (Page Edge)
    unless_on_page request obj key limit (s, l) = elim l.item [
      | some edges ↦
          if fits (length edges) limit
          then (s, got (record { data_ = edges; response = no_more }))
          else one_page_saved obj key l.lock (request s)
      | none ↦ object_released obj l.lock (one_page_saved obj key l.lock (request s))
    ]

    unfoldable pub list_edges_on_object :
        List Opt → Api State Edge → Text → (ℕ → Text) → State → State × Outcome (Page Edge)
    list_edges_on_object options api id ids s = elim (pager_or_none (apply_options options)) [
      | none ↦ (s, error bad_input)
      | some pager ↦
          let obj = object_with_id nil id in
          let key = name_of (named c.base obj_edges_key_id id) in
          let request = api.get_page (lit "/authz/objects/" ++ id ++ lit "/edges") (query pager) in
          let r = get_items_array_from_cache p (edge_items c j) key true ids s in
          if o.bypass_cache
          then one_page_saved obj key no_lock_sentinel (request s)
          else unless_on_page request obj key pager.limit (r.0, loaded_or_nothing r.1)
    ]
