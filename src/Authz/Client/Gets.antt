-- ===== src/Authz/Client/Gets.antt =====
-- authz/client.go: the gets of items by ID, by name, and the deletes.
use authzsdk.Prelude.{ℕ, Option, none, some, [], ◌++◌, true, false, Text, lit}
use authzsdk.Cache.Sentinel.{Sentinel, delete}
use authzsdk.Cache.Provider.{Provider}
use authzsdk.Cache.Manager.{ItemType, Reply, reply, failed}
use authzsdk.Cache.Manager.Locks.{
  Ids, take_item_lock, release_item_lock, take_per_item_collection_lock,
  release_per_item_collection_lock,
}
use authzsdk.Cache.Manager.Loads.{Loaded, get_item_from_cache}
use authzsdk.Cache.Manager.Methods.{MethodIds, get_item_client}
use authzsdk.Authz.KeyNames.{
  KeyNameId, object_type_key_id, edge_type_key_id, object_key_id, edge_key_id, organization_key_id,
}
use authzsdk.Authz.Items.{named}
use authzsdk.Authz.Models.{ObjectType, EdgeType, Object, Edge, Organization}
use authzsdk.Authz.Client.{
  Sent, or_none, outcome, plain_outcome, Outcome, got, error, cache_error, Api, Options,
}
use authzsdk.Authz.Client.Types.{
  Setup, Codec, name_of, object_type_items, edge_type_items, object_items, edge_items,
  organization_items, new_base_with_id, object_with_id,
}

-- The action of a get.
abbrev pub get_action : {S A : Type 0} → Api S A → Text → Sentinel → S → S × Option A
get_action api path conflict s = let r = api.get path s in (r.0, or_none r.1)

-- The call of Flush of the provider; its error is returned.
abbrev pub flushed : {S : Type 0} → (S → S) → S × Outcome (Unit {0}) → S × Outcome (Unit {0})
flushed flush (s, got u) = (flush s, got u)
flushed flush (s, error e) = (s, error e)

module _ (p : Provider) (c : Setup) where
  open p use {State}

  module _ (o : Options) where
    abbrev pub get_by_id :
        (t : ItemType)
        → Api State t.Value
        → KeyNameId
        → Text
        → Text
        → Text
        → MethodIds
        → State
        → State × Reply t.Value
    get_by_id t api key_id path id drawn =
        get_item_client p t (name_of (named c.base key_id id)) o.bypass_cache
          (get_action api (path ++ id)) drawn

    unfoldable pub get_object_type :
        Codec ObjectType
        → Api State ObjectType
        → Text
        → Text
        → MethodIds
        → State
        → State × Reply ObjectType
    get_object_type j api =
        get_by_id (object_type_items c j) api object_type_key_id (lit "/authz/objecttypes/")

    unfoldable pub get_edge_type :
        Codec EdgeType
        → Api State EdgeType
        → Text
        → Text
        → MethodIds
        → State
        → State × Reply EdgeType
    get_edge_type j api =
        get_by_id (edge_type_items c j) api edge_type_key_id (lit "/authz/edgetypes/")

    unfoldable pub get_object :
        Codec Object → Api State Object → Text → Text → MethodIds → State → State × Reply Object
    get_object j api = get_by_id (object_items c j) api object_key_id (lit "/authz/objects/")

    unfoldable pub get_edge :
        Codec Edge → Api State Edge → Text → Text → MethodIds → State → State × Reply Edge
    get_edge j api = get_by_id (edge_items c j) api edge_key_id (lit "/authz/edges/")

    unfoldable pub get_organization :
        Codec Organization
        → Api State Organization
        → Text
        → Text
        → MethodIds
        → State
        → State × Reply Organization
    get_organization j api =
        get_by_id (organization_items c j) api organization_key_id (lit "/authz/organizations/")

  -- The call of a delete under a lock, and the release of the lock behind it.
  abbrev pub under_lock :
      {A : Type 0}
      → (Sent A → Outcome A)
      → (State → State × Sent A)
      → (Sentinel → State → State)
      → State × Reply Sentinel
      → State × Outcome A
  under_lock returned request release (s, failed e) = (s, error (cache_error e))
  under_lock returned request release (s, reply lock) =
      let r = request s in (release lock r.0, returned r.1)

  -- The item to lock for a delete: the cached one, or one with its ID alone.
  abbrev pub loaded_or : {A : Type 0} → A → Loaded A → A
  loaded_or v l = elim l.item [ some w ↦ w | none ↦ v ]

  abbrev pub delete_loaded :
      (t : ItemType)
      → Api State t.Value
      → Text
      → t.Value
      → Ids
      → State × Reply (Loaded t.Value)
      → State × Outcome (Unit {0})
  delete_loaded t api path v ids (s, failed e) = (s, error (cache_error e))
  delete_loaded t api path v ids (s, reply l) =
      let i = t.keys (loaded_or v l) in
      under_lock outcome (api.delete path) (release_item_lock p delete i)
        (take_item_lock p delete i ids s)

  -- Here and below `nil` is the text of uuid.Nil.
  unfoldable pub delete_edge :
      Codec Edge
      → Api State Edge
      → Text
      → Text
      → (ℕ → Text)
      → Ids
      → State
      → State × Outcome (Unit {0})
  delete_edge j api nil id load_ids ids s =
      delete_loaded (edge_items c j) api (lit "/authz/edges/" ++ id)
        (record {
          base = new_base_with_id id;
          edge_type_id = nil;
          source_object_id = nil;
          target_object_id = nil;
        })
        ids
        (get_item_from_cache p (edge_items c j) (name_of (named c.base edge_key_id id)) false
          load_ids s)

  unfoldable pub delete_object :
      Codec Object
      → Api State Object
      → Text
      → Text
      → (ℕ → Text)
      → Ids
      → State
      → State × Outcome (Unit {0})
  delete_object j api nil id load_ids ids s =
      delete_loaded (object_items c j) api (lit "/authz/objects/" ++ id) (object_with_id nil id) ids
        (get_item_from_cache p (object_items c j) (name_of (named c.base object_key_id id)) false
          load_ids s)

  unfoldable pub delete_edges_by_object :
      Codec Object → Api State Object → Text → Text → Ids → State → State × Outcome (Unit {0})
  delete_edges_by_object j api nil id ids s =
      let i = (object_items c j).keys (object_with_id nil id) in
      under_lock plain_outcome (api.delete (lit "/authz/objects/" ++ id ++ lit "/edges"))
        (release_per_item_collection_lock p [] i)
        (take_per_item_collection_lock p delete [] i ids s)

  -- FlushCache
  abbrev pub flush_cache : State → State
  flush_cache = p.flush c.base true

  unfoldable pub delete_object_type :
      Api State ObjectType → Text → State → State × Outcome (Unit {0})
  delete_object_type api id s =
      let r = api.delete (lit "/authz/objecttypes/" ++ id) s in
      flushed flush_cache (r.0, outcome r.1)

  unfoldable pub delete_edge_type : Api State EdgeType → Text → State → State × Outcome (Unit {0})
  delete_edge_type api id s =
      let r = api.delete (lit "/authz/edgetypes/" ++ id) s in flushed flush_cache (r.0, outcome r.1)
