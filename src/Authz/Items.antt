-- ===== src/Authz/Items.antt =====
-- authz/cache_name_provider.go: the keys of each cached item (interface SingleItem of
-- infra/cache/api.go). An ID is given by its text; `is_nil` is the test for uuid.Nil. A key that is
-- `none` is an index out of range in GetKeyName.
use authzsdk.Cache.Manager.{ItemKeys}
use authzsdk.Prelude.{Option, none, some, List, [], ◌∷◌, Bool, not, ◌||◌, Text, if◌then◌else◌}
use authzsdk.Authz.Models.{ObjectType, EdgeType, Object, Edge, Organization, AttributePathNode}
use authzsdk.Authz.KeyNames.{
  KeyNameId, get_key_name, object_type_key_id, edge_type_key_id, object_key_id, edge_key_id,
  organization_key_id, edge_full_key_id, object_type_name_key_id, obj_edges_key_id,
  edge_type_name_key_id, obj_alias_name_key_id, organization_name_key_id, dependency_key_id,
  is_modified_key_id, is_modified_collection_key_id, object_type_collection_key_id,
  edge_type_collection_key_id, object_collection_key_id, edge_collection_key_id,
  edge_collection_pages_key_id, organization_collection_key_id,
}

-- A key that the source leaves empty.
abbrev pub unused : Option Text
unused = some []

abbrev pub named : Text → KeyNameId → Text → Option Text
named base id item = get_key_name base id (item ∷ [])

-- The key of a name, unless it is empty.
abbrev pub by_name : Text → KeyNameId → Text → List (Option Text)
by_name base id [] = []
by_name base id (c ∷ s) = named base id (c ∷ s) ∷ []

unfoldable pub object_type_keys : Text → ObjectType → ItemKeys (Option Text)
unfolding get_key_name
object_type_keys base ot = record {
  primary_key = named base object_type_key_id ot.id;
  secondary_keys = by_name base object_type_name_key_id ot.type_name;
  global_collection_key = get_key_name base object_type_collection_key_id [];
  global_collection_pages_key = unused;
  per_item_collection_key = unused;
  dependencies_key = unused;
  is_modified_key = named base is_modified_key_id ot.id;
  is_modified_collection_key = unused;
  dependency_keys = [];
}

unfoldable pub edge_type_keys : Text → EdgeType → ItemKeys (Option Text)
unfolding get_key_name
edge_type_keys base et = record {
  primary_key = named base edge_type_key_id et.id;
  secondary_keys = by_name base edge_type_name_key_id et.type_name;
  global_collection_key = get_key_name base edge_type_collection_key_id [];
  global_collection_pages_key = unused;
  per_item_collection_key = unused;
  dependencies_key = unused;
  is_modified_key = named base is_modified_key_id et.id;
  is_modified_collection_key = unused;
  dependency_keys = [];
}

abbrev pub by_alias : Text → Object → Option Text → List (Option Text)
by_alias base o none = []
by_alias base o (some alias) =
    get_key_name base obj_alias_name_key_id (o.type_id ∷ alias ∷ o.organization_id ∷ []) ∷ []

unfoldable pub object_keys : Text → Object → ItemKeys (Option Text)
unfolding get_key_name
object_keys base o = record {
  primary_key = named base object_key_id o.id;
  secondary_keys = by_alias base o o.alias;
  global_collection_key = get_key_name base object_collection_key_id [];
  global_collection_pages_key = unused;
  per_item_collection_key = named base obj_edges_key_id o.id;
  dependencies_key = named base dependency_key_id o.id;
  is_modified_key = named base is_modified_key_id o.id;
  is_modified_collection_key = unused;
  dependency_keys = [];
}

abbrev pub by_ends : (Text → Bool) → Text → Edge → List (Option Text)
by_ends is_nil base e =
    if not (is_nil e.source_object_id)
      || not (is_nil e.target_object_id)
      || not (is_nil e.edge_type_id)
    then get_key_name base edge_full_key_id
        (e.source_object_id ∷ e.target_object_id ∷ e.edge_type_id ∷ [])
      ∷ []
    else []

abbrev pub named_by_key : Text → KeyNameId → Option Text → Option Text
named_by_key base id none = none
named_by_key base id (some key) = named base id key

unfoldable pub edge_keys : (Text → Bool) → Text → Edge → ItemKeys (Option Text)
unfolding get_key_name
edge_keys is_nil base e = record {
  primary_key = named base edge_key_id e.id;
  secondary_keys = by_ends is_nil base e;
  global_collection_key = get_key_name base edge_collection_key_id [];
  global_collection_pages_key = get_key_name base edge_collection_pages_key_id [];
  per_item_collection_key = unused;
  dependencies_key = named base dependency_key_id e.id;
  is_modified_key = named base is_modified_key_id e.id;
  is_modified_collection_key =
      named_by_key base is_modified_collection_key_id (get_key_name base edge_collection_key_id []);
  dependency_keys =
      named base dependency_key_id e.source_object_id
      ∷ named base dependency_key_id e.target_object_id
      ∷ [];
}

unfoldable pub attribute_path_node_keys :
    (Text → Bool) → Text → AttributePathNode → ItemKeys (Option Text)
unfolding get_key_name
attribute_path_node_keys is_nil base e = record {
  primary_key = unused;
  secondary_keys = [];
  global_collection_key = unused;
  global_collection_pages_key = unused;
  per_item_collection_key = unused;
  dependencies_key = unused;
  is_modified_key = unused;
  is_modified_collection_key = unused;
  dependency_keys =
      if is_nil e.edge_id
      then named base dependency_key_id e.object_id ∷ []
      else named base dependency_key_id e.edge_id ∷ named base dependency_key_id e.object_id ∷ [];
}

unfoldable pub organization_keys : Text → Organization → ItemKeys (Option Text)
unfolding get_key_name
organization_keys base o = record {
  primary_key = named base organization_key_id o.id;
  secondary_keys = by_name base organization_name_key_id o.name;
  global_collection_key = get_key_name base organization_collection_key_id [];
  global_collection_pages_key = unused;
  per_item_collection_key = unused;
  dependencies_key = named base dependency_key_id o.id;
  is_modified_key = named base is_modified_key_id o.id;
  is_modified_collection_key = unused;
  dependency_keys = [];
}
