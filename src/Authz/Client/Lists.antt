-- ===== src/Authz/Client/Lists.antt =====
-- authz/client.go: ListObjectTypes, ListEdgeTypes and ListOrganizations, which read all pages, and the
-- lookups of types by name. The loop over the pages is on fuel, and none where this ends.
use authzsdk.Prelude.{
  ℕ, zero, suc, Option, none, some, List, [], ◌∷◌, ◌++◌, Bool, true, false, not, Text, lit, text_eq,
  if◌then◌else◌,
}
use authzsdk.Pagination.Options.{Paginator}
use authzsdk.Pagination.Pager.{apply_options, advance_cursor, pager_or_none}
use authzsdk.Pagination.Query.{query}
use authzsdk.Cache.Sentinel.{Key, Sentinel, no_lock_sentinel}
use authzsdk.Cache.Provider.{Provider}
use authzsdk.Cache.Manager.{ItemType, Reply, reply, failed}
use authzsdk.Cache.Manager.Loads.{Loaded, get_item_from_cache, get_items_array_from_cache}
use authzsdk.Cache.Manager.Saves.{
  SaveIds, save_items_from_collection_to_cache, save_items_to_collection,
}
use authzsdk.Authz.KeyNames.{
  KeyNameId, get_key_name, object_type_collection_key_id, edge_type_collection_key_id,
  organization_collection_key_id, object_type_name_key_id,
}
use authzsdk.Authz.Items.{named}
use authzsdk.Authz.Models.{ObjectType, EdgeType, Organization}
use authzsdk.Authz.Client.{
  Sent, answer, refused, broken, Outcome, got, error, cache_error, not_found, bad_input,
  request_failed, Page, Api, Options,
}
use authzsdk.Authz.Client.Types.{
  Setup, Codec, name_of, object_type_items, edge_type_items, organization_items, new_base_with_id,
}

-- The loop over the pages: what was read so far, and a save of each page.
unfoldable pub list_pages :
    {S A : Type 0}
    → (List (Text × Text) → S → S × Sent (Page A))
    → (List A → S → S)
    → ℕ
    → Paginator
    → List A
    → S
    → Option (S × Outcome (List A))
unfolding query advance_cursor
list_pages request save zero pager items s = none
list_pages request save (suc fuel) pager items s =
    let r = request (query pager) s in
    elim r.1 [
      | refused status body ↦ some (r.0, error request_failed)
      | broken ↦ some (r.0, error request_failed)
      | answer page ↦
          let next = advance_cursor page.response pager in
          let u = save page.data_ r.0 in
          let more = list_pages request save fuel next.1 (items ++ page.data_) u in
          if next.0 then more else some (u, got (items ++ page.data_))
    ]

-- The loop of a list operation, from the paginator without options.
abbrev pub list_from :
    {S A : Type 0}
    → Option Paginator
    → (List (Text × Text) → S → S × Sent (Page A))
    → (List A → S → S)
    → ℕ
    → S
    → Option (S × Outcome (List A))
list_from none request save fuel s = some (s, error bad_input)
list_from (some pager) request save fuel s = list_pages request save fuel pager [] s

module _ (p : Provider) where
  open p use {State}

  -- Behind the loop, all that was read is saved under the lock.
  abbrev pub collected :
      {A : Type 0}
      → (List A → State → State)
      → Option (State × Outcome (List A))
      → Option (State × Outcome (List A))
  collected save none = none
  collected save (some (s, error e)) = some (s, error e)
  collected save (some (s, got items)) = some (save items s, got items)

  module _ (t : ItemType) (key : Key) (save_ids : t.Value → SaveIds) where
    abbrev pub list_locked :
        (List t.Value → State → State)
        → (List (Text × Text) → State → State × Sent (Page t.Value))
        → Sentinel
        → ℕ
        → State
        → Option (State × Outcome (List t.Value))
    list_locked save_all request lock fuel s = collected save_all (
        list_from (pager_or_none (apply_options [])) request
          (λ items. save_items_from_collection_to_cache p t items lock save_ids) fuel s)

    abbrev pub unless_listed :
        (Sentinel → State → Option (State × Outcome (List t.Value)))
        → State × Reply (Loaded (List t.Value))
        → Option (State × Outcome (List t.Value))
    unless_listed run (s, failed e) = run no_lock_sentinel s
    unless_listed run (s, reply l) = elim l.item [
      | some items ↦ some (s, got items)
      | none ↦ run l.lock s
    ]

    -- A list operation: the cached collection, or all pages of the server. `zero_item` is the item whose
    -- type the collection is saved for, in `u`.
    unfoldable pub list_all :
        (u : ItemType)
        → u.Value
        → Bool
        → (List (Text × Text) → State → State × Sent (Page t.Value))
        → (ℕ → Text)
        → ℕ
        → State
        → Option (State × Outcome (List t.Value))
    unfolding list_pages
    list_all u zero_item use_cache request ids fuel s =
        let run = λ (lock : Sentinel) (w : State).
          list_locked (λ items. save_items_to_collection p u t zero_item items key key lock true)
            request lock fuel w in
        if use_cache
        then unless_listed run (get_items_array_from_cache p t key true ids s)
        else list_from (pager_or_none (apply_options [])) request (λ items w. w) fuel s

  module _ (c : Setup) (o : Options) where
    abbrev pub collection_key : KeyNameId → Key
    collection_key id = name_of (get_key_name c.base id [])

    abbrev pub zero_object_type : Text → ObjectType
    zero_object_type nil = record { base = new_base_with_id nil; type_name = [] }

    abbrev pub zero_edge_type : Text → EdgeType
    zero_edge_type nil = record {
      base = new_base_with_id nil;
      type_name = [];
      source_object_type_id = nil;
      target_object_type_id = nil;
      attributes = [];
      organization_id = nil;
    }

    -- Without pagination options; `nil` is the text of uuid.Nil.
    unfoldable pub list_object_types :
        Codec ObjectType
        → Api State ObjectType
        → Text
        → (ObjectType → SaveIds)
        → (ℕ → Text)
        → ℕ
        → State
        → Option (State × Outcome (List ObjectType))
    unfolding list_all
    list_object_types j api nil save_ids =
        list_all (object_type_items c j) (collection_key object_type_collection_key_id) save_ids
          (object_type_items c j) (zero_object_type nil) (not o.bypass_cache)
          (api.get_page (lit "/authz/objecttypes"))

    unfoldable pub list_edge_types :
        Codec EdgeType
        → Api State EdgeType
        → Text
        → (EdgeType → SaveIds)
        → (ℕ → Text)
        → ℕ
        → State
        → Option (State × Outcome (List EdgeType))
    unfolding list_all
    list_edge_types j api nil save_ids =
        list_all (edge_type_items c j) (collection_key edge_type_collection_key_id) save_ids
          (edge_type_items c j) (zero_edge_type nil) (not o.bypass_cache)
          (λ pairs. api.get_page (lit "/authz/edgetypes") (
            pairs
            ++ (if c.is_nil o.organization_id
                then []
                else (lit "organization_id", o.organization_id) ∷ [])))

    -- The collection of organizations is saved as one of object types.
    unfoldable pub list_organizations :
        Codec ObjectType
        → Codec Organization
        → Api State Organization
        → Text
        → (Organization → SaveIds)
        → (ℕ → Text)
        → ℕ
        → State
        → Option (State × Outcome (List Organization))
    unfolding list_all
    list_organizations jo j api nil save_ids =
        list_all (organization_items c j) (collection_key organization_collection_key_id) save_ids
          (object_type_items c jo) (zero_object_type nil) (not o.bypass_cache)
          (api.get_page (lit "/authz/organizations"))

    unfoldable pub id_of_name : List ObjectType → Text → Option Text
    id_of_name [] type_name = none
    id_of_name (t ∷ ts) type_name =
        let later = id_of_name ts type_name in
        if text_eq t.type_name type_name then some t.id else later

    abbrev pub id_outcome : Option Text → Outcome Text
    id_outcome none = error not_found
    id_outcome (some id) = got id

    abbrev pub found_id :
        Text → Option (State × Outcome (List ObjectType)) → Option (State × Outcome Text)
    found_id type_name none = none
    found_id type_name (some (s, error e)) = some (s, error e)
    found_id type_name (some (s, got ts)) = some (s, id_outcome (id_of_name ts type_name))

    abbrev pub unless_known :
        (State → Option (State × Outcome Text))
        → State × Reply (Loaded ObjectType)
        → Option (State × Outcome Text)
    unless_known run (s, failed e) = some (s, error (cache_error e))
    unless_known run (s, reply l) = elim l.item [ some v ↦ some (s, got v.id) | none ↦ run s ]

    unfoldable pub find_object_type_id :
        Codec ObjectType
        → Api State ObjectType
        → Text
        → (ObjectType → SaveIds)
        → Text
        → (ℕ → Text)
        → (ℕ → Text)
        → ℕ
        → State
        → Option (State × Outcome Text)
    unfolding list_object_types id_of_name
    find_object_type_id j api nil save_ids type_name load_ids ids fuel s =
        let run =
          λ (w : State). found_id type_name (list_object_types j api nil save_ids ids fuel w) in
        if o.bypass_cache
        then run s
        else unless_known run (
            get_item_from_cache p (object_type_items c j)
              (name_of (named c.base object_type_name_key_id type_name)) false load_ids s)
