-- ===== src/Authz/KeyNames.antt =====
-- authz/cache_name_provider.go: the names of the cache's keys. An ID is given by its text. An index out
-- of range is `none`.
use authzsdk.Prelude.{Option, none, some, List, [], ◌∷◌, ◌++◌, Text, lit}

-- The constants of type KeyNameID, and any other text.
pub data KeyNameId : Type 0 where
  object_type_key_id edge_type_key_id object_key_id edge_key_id organization_key_id : KeyNameId
  edge_full_key_id object_type_name_key_id obj_edges_key_id edge_type_name_key_id
        obj_alias_name_key_id :
      KeyNameId
  organization_name_key_id edges_obj_to_obj_id dependency_key_id is_modified_key_id : KeyNameId
  is_modified_collection_key_id object_type_collection_key_id edge_type_collection_key_id :
      KeyNameId
  object_collection_key_id edge_collection_key_id edge_collection_pages_key_id
        edge_collection_page_key_id :
      KeyNameId
  organization_collection_key_id attribute_path_obj_to_obj_id : KeyNameId
  other_key_id : Text → KeyNameId

-- The components, each behind an underscore.
abbrev pub joined : List Text → Text
joined [] = []
joined (s ∷ parts) = b'_' ∷ (s ++ joined parts)

-- A name of one component, and names of two and three.
abbrev pub name_of1 : Text → Text → List Text → Option Text
name_of1 base prefix (a ∷ _) = some (base ++ joined (prefix ∷ a ∷ []))
name_of1 base prefix _ = none

abbrev pub name_of3 : Text → Text → List Text → Option Text
name_of3 base prefix (a ∷ b ∷ c ∷ _) = some (base ++ joined (prefix ∷ a ∷ b ∷ c ∷ []))
name_of3 base prefix _ = none

abbrev pub edges_between : Text → List Text → Option Text
edges_between base (a ∷ b ∷ _) = some (base ++ joined (lit "OBJ" ∷ a ∷ lit "E" ∷ b ∷ []))
edges_between base _ = none

abbrev pub page_of : Text → List Text → Option Text
page_of base (a ∷ b ∷ _) = some (base ++ joined (lit "EDGE_COL" ∷ a ∷ b ∷ []))
page_of base _ = none

abbrev pub modified_collection : List Text → Option Text
modified_collection (a ∷ _) = some (a ++ joined (lit "MOD" ∷ []))
modified_collection _ = none

abbrev pub path_between : Text → List Text → Option Text
path_between base (a ∷ b ∷ c ∷ _) = some (base ++ joined (lit "OBJ" ∷ a ∷ lit "P" ∷ b ∷ c ∷ []))
path_between base _ = none

-- CacheNameProvider.GetKeyName
unfoldable pub get_key_name : Text → KeyNameId → List Text → Option Text
get_key_name base object_type_key_id cs = name_of1 base (lit "OBJTYPE") cs
get_key_name base edge_type_key_id cs = name_of1 base (lit "EDGETYPE") cs
get_key_name base object_key_id cs = name_of1 base (lit "OBJ") cs
get_key_name base edge_key_id cs = name_of1 base (lit "EDGE") cs
get_key_name base organization_key_id cs = name_of1 base (lit "ORG") cs
get_key_name base object_type_name_key_id cs = name_of1 base (lit "OBJTYPE") cs
get_key_name base edge_type_name_key_id cs = name_of1 base (lit "EDGETYPE") cs
get_key_name base obj_alias_name_key_id cs = name_of3 base (lit "OBJ") cs
get_key_name base organization_name_key_id cs = name_of1 base (lit "ORG") cs
get_key_name base edges_obj_to_obj_id cs = edges_between base cs
get_key_name base object_type_collection_key_id cs = some (base ++ joined (lit "OBJTYPE_COL" ∷ []))
get_key_name base edge_type_collection_key_id cs = some (base ++ joined (lit "EDGETYPE_COL" ∷ []))
get_key_name base object_collection_key_id cs = some (base ++ joined (lit "OBJ_COL" ∷ []))
get_key_name base edge_collection_key_id cs = some (base ++ joined (lit "EDGE_COL" ∷ []))
get_key_name base edge_collection_pages_key_id cs =
    some (base ++ joined (lit "EDGE_COL" ∷ lit "PAGES" ∷ []))
get_key_name base edge_collection_page_key_id cs = page_of base cs
get_key_name base organization_collection_key_id cs = some (base ++ joined (lit "ORG_COL" ∷ []))
get_key_name base obj_edges_key_id cs = name_of1 base (lit "OBJEDGES") cs
get_key_name base dependency_key_id cs = name_of1 base (lit "DEP") cs
get_key_name base is_modified_key_id cs = name_of1 base (lit "MOD") cs
get_key_name base is_modified_collection_key_id cs = modified_collection cs
get_key_name base edge_full_key_id cs = name_of3 base (lit "EDGE") cs
get_key_name base attribute_path_obj_to_obj_id cs = path_between base cs
get_key_name base (other_key_id s) cs = some []

-- NewCacheNameProviderForTenant
abbrev pub base_for_tenant : Text → Text
base_for_tenant tenant = lit "authz_" ++ tenant
