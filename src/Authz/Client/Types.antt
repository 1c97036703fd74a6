-- ===== src/Authz/Client/Types.antt =====
-- The types that the client caches, as items: their keys under one provider of names
-- (authz/cache_name_provider.go), their validations, and their times to live
-- (authz/cache_ttl_provider.go, NewCustomClient of authz/client.go).
use authzsdk.Prelude.{
  ℕ, ◌+◌, Option, none, some, List, [], Bool, not, Text, map, is_some, if◌then◌else◌, ◌==◌,
}
use authzsdk.Cache.Sentinel.{Key}
use authzsdk.Cache.Manager.{ItemKeys, ItemType}
use authzsdk.Authz.Models.{
  BaseModel, ObjectType, EdgeType, Object, Edge, Organization, AttributePathNode, validate_base,
  validate_object_type, validate_edge_type, validate_object, validate_edge, validate_path_node,
}
use authzsdk.Authz.Items.{
  object_type_keys, edge_type_keys, object_keys, edge_keys, organization_keys,
  attribute_path_node_keys,
}

pub data TtlId : Type 0 where
  object_type_ttl edge_type_ttl object_ttl edge_ttl organization_ttl : TtlId
  other_ttl : Text → TtlId

pub record TtlProvider : Type 0 where
  pub obj_type : ℕ
  pub edge_type : ℕ
  pub obj : ℕ
  pub edge : ℕ
  pub org : ℕ
  pub expr_window : ℕ

-- NewCacheTTLProvider: organizations live as long as object types.
abbrev pub new_ttl_provider : ℕ → ℕ → ℕ → ℕ → ℕ → TtlProvider
new_ttl_provider obj_type edge_type obj edge expr_window = record {
  obj_type = obj_type;
  edge_type = edge_type;
  obj = obj;
  edge = edge;
  org = obj_type;
  expr_window = expr_window;
}

-- CacheTTLProvider.TTL, of a number drawn below the window, where there is one.
unfoldable pub ttl_of : TtlProvider → TtlId → ℕ → ℕ
ttl_of c id drawn =
    let shift = if c.expr_window == 0 then 0 else drawn in
    elim id [
      | object_type_ttl ↦ c.obj_type + shift
      | edge_type_ttl ↦ c.edge_type + shift
      | object_ttl ↦ c.obj + shift
      | edge_ttl ↦ c.edge + shift
      | organization_ttl ↦ c.org + shift
      | other_ttl s ↦ 0
    ]

-- The times to live of a client: none is kept if it is to bypass the cache.
unfoldable pub client_ttls : Bool → ℕ → ℕ → ℕ → ℕ → TtlProvider
client_ttls bypass obj_type edge_type obj edge =
    if bypass then new_ttl_provider 0 0 0 0 0 else new_ttl_provider obj_type edge_type obj edge 0

-- What a client is made with: the test for uuid.Nil, the prefix of its names, its times to live.
pub record Setup : Type 0 where
  pub is_nil : Text → Bool
  pub base : Text
  pub ttls : TtlProvider

-- Package encoding/json on a type and on slices of it.
pub record Codec (A : Type 0) : Type 0 where
  pub marshal : A → Option Text
  pub unmarshal : Text → Option A
  pub marshal_all : List A → Option Text
  pub unmarshal_all : Text → Option (List A)

-- A name. None is an index out of range, which no call of this package makes.
abbrev pub name_of : Option Text → Key
name_of none = []
name_of (some k) = k

abbrev pub names_of : ItemKeys (Option Text) → ItemKeys Key
names_of i = record {
  primary_key = name_of i.primary_key;
  secondary_keys = map name_of i.secondary_keys;
  global_collection_key = name_of i.global_collection_key;
  global_collection_pages_key = name_of i.global_collection_pages_key;
  per_item_collection_key = name_of i.per_item_collection_key;
  dependencies_key = name_of i.dependencies_key;
  is_modified_key = name_of i.is_modified_key;
  is_modified_collection_key = name_of i.is_modified_collection_key;
  dependency_keys = map name_of i.dependency_keys;
}

-- A type of items: its keys, its time to live, its codec, and its validation, which has no error for
-- a valid value.
abbrev pub items_of :
    {A : Type 0} {E : Type 0}
    → (A → ItemKeys (Option Text))
    → ℕ
    → (A → Option E)
    → Codec A
    → ItemType
items_of {A} keys ttl validate j = record {
  Value = A;
  keys = λ v. names_of (keys v);
  ttl = ttl;
  is_valid = λ v. not (is_some (validate v));
  marshal = j.marshal;
  unmarshal = j.unmarshal;
  marshal_all = j.marshal_all;
  unmarshal_all = j.unmarshal_all;
}

module _ (c : Setup) where
  abbrev pub object_type_items : Codec ObjectType → ItemType
  object_type_items =
      items_of (object_type_keys c.base) (ttl_of c.ttls object_type_ttl 0)
        (validate_object_type c.is_nil)

  abbrev pub edge_type_items : Codec EdgeType → ItemType
  edge_type_items =
      items_of (edge_type_keys c.base) (ttl_of c.ttls edge_type_ttl 0) (validate_edge_type c.is_nil)

  abbrev pub object_items : Codec Object → ItemType
  object_items =
      items_of (object_keys c.base) (ttl_of c.ttls object_ttl 0) (validate_object c.is_nil)

  abbrev pub edge_items : Codec Edge → ItemType
  edge_items =
      items_of (edge_keys c.is_nil c.base) (ttl_of c.ttls edge_ttl 0) (validate_edge c.is_nil)

  -- The Validate of an organization is that of the BaseModel in it.
  abbrev pub organization_items : Codec Organization → ItemType
  organization_items =
      items_of (organization_keys c.base) (ttl_of c.ttls organization_ttl 0)
        (λ o. validate_base c.is_nil o.base)

  abbrev pub path_node_items : Codec AttributePathNode → ItemType
  path_node_items =
      items_of (attribute_path_node_keys c.is_nil c.base) (ttl_of c.ttls edge_ttl 0)
        (validate_path_node c.is_nil)

-- NewBaseWithID. The times are those of time.Time{}.
abbrev pub new_base_with_id : Text → BaseModel
new_base_with_id id = record { id = id; created = 0; updated = 0; deleted = 0 }

-- An object of which only the ID is given; `nil` is the text of uuid.Nil.
abbrev pub object_with_id : Text → Text → Object
object_with_id nil id = record {
  base = new_base_with_id id;
  alias = none;
  type_id = nil;
  organization_id = nil;
}
