-- ===== src/Authz/Client/Creates.antt =====
-- authz/client.go: the creates of object types, edge types, objects, edges and organizations, and
-- CreateIfNotExists of infra/jsonclient/client.go. The ID that NewBase draws is an argument.
use authzsdk.Prelude.{
  Option, none, some, List, [], ◌∷◌, Bool, ◌&&◌, ◌||◌, Text, lit, text_eq, if◌then◌else◌, ◌==◌,
}
use authzsdk.Cache.Sentinel.{Key}
use authzsdk.Cache.Provider.{Provider}
use authzsdk.Cache.Manager.{Reply}
use authzsdk.Cache.Manager.Methods.{MethodIds, create_item}
use authzsdk.Authz.KeyNames.{
  get_key_name, object_type_key_id, edge_type_key_id, object_key_id, edge_key_id,
  organization_key_id, object_type_name_key_id, edge_type_name_key_id, obj_alias_name_key_id,
  organization_name_key_id, edge_full_key_id, edges_obj_to_obj_id, obj_edges_key_id,
}
use authzsdk.Authz.Items.{named}
use authzsdk.Authz.Models.{
  BaseModel, Attribute, ObjectType, EdgeType, Object, Edge, Organization, object_type_equals,
  edge_type_equals, object_equals, edge_equals,
}
use authzsdk.Authz.Client.{Sent, answer, refused, broken, or_none, Api, Options}
use authzsdk.Authz.Client.Types.{
  Setup, Codec, name_of, object_type_items, edge_type_items, object_items, edge_items,
  organization_items,
}

-- What CreateIfNotExists returns: a new item, or the ID of one that exists already.
pub data Created (A : Type 0) : Type 0 where
  created : A → Created A
  existed : Text → Created A

-- CreateIfNotExists, on what a post comes to: a conflict with an identical item is no error.
unfoldable pub create_if_not_exists : {A : Type 0} → Sent A → Option (Created A)
create_if_not_exists (answer a) = some (created a)
create_if_not_exists (refused status none) = none
create_if_not_exists (refused status (some (identical, id))) =
    if status == 409 && identical then some (existed id) else none
create_if_not_exists broken = none

module _ (is_nil : Text → Bool) {A : Type 0} (with_id : A → Text → A) where
  -- The item that a create with ifNotExists returns: of one that exists the input, with its ID, unless
  -- the caller asked for another ID.
  abbrev pub existing_or_new : Text → A → Option (Created A) → Option A
  existing_or_new id input none = none
  existing_or_new id input (some (created a)) = some a
  existing_or_new id input (some (existed other)) =
      if is_nil id || text_eq other id then some (with_id input other) else none

  -- The action of a create.
  unfoldable pub create_action : {S : Type 0} → Api S A → Text → Bool → Text → A → S → S × Option A
  unfolding create_if_not_exists
  create_action api path if_not_exists id input s =
      let r = api.post path input s in
      (
        r.0,
        if if_not_exists then existing_or_new id input (create_if_not_exists r.1) else or_none r.1,
      )

-- NewBase of a drawn ID, with the caller's ID if there is one.
abbrev pub base_of : (Text → Bool) → Text → Text → BaseModel
base_of is_nil drawn id = record {
  id = if is_nil id then drawn else id;
  created = 0;
  updated = 0;
  deleted = 0;
}

abbrev pub base_with_id : BaseModel → Text → BaseModel
base_with_id b id = record b { id = id }

-- The key under which a create looks for an item that exists: by ID, if there is one.
abbrev pub lookup_key : (Text → Bool) → Text → Option Text → Option Text → Key
lookup_key is_nil id by_id secondary = name_of (if is_nil id then secondary else by_id)

abbrev pub same_id : (Text → Bool) → Text → Text → Bool
same_id is_nil id current = is_nil id || text_eq current id

module _ (p : Provider) (c : Setup) (o : Options) where
  open p use {State}

  unfoldable pub create_object_type :
      Codec ObjectType
      → Api State ObjectType
      → Text
      → Text
      → Text
      → MethodIds
      → State
      → State × Reply ObjectType
  unfolding create_action
  create_object_type j api drawn id type_name =
      create_item p (object_type_items c j)
        (some (record { base = base_of c.is_nil drawn id; type_name = type_name }))
        (lookup_key c.is_nil id (named c.base object_type_key_id id)
          (named c.base object_type_name_key_id type_name))
        o.if_not_exists o.bypass_cache []
        (create_action c.is_nil (λ v i. record v { base = base_with_id v.base i }) api
          (lit "/authz/objecttypes") o.if_not_exists id)
        (λ input v. object_type_equals v input && same_id c.is_nil id v.id)

  unfoldable pub create_edge_type :
      Codec EdgeType
      → Api State EdgeType
      → Text
      → Text
      → Text
      → Text
      → Text
      → List Attribute
      → MethodIds
      → State
      → State × Reply EdgeType
  unfolding create_action
  create_edge_type j api drawn id source target type_name attributes =
      create_item p (edge_type_items c j)
        (some (record {
          base = base_of c.is_nil drawn id;
          type_name = type_name;
          source_object_type_id = source;
          target_object_type_id = target;
          attributes = attributes;
          organization_id = o.organization_id;
        }))
        (lookup_key c.is_nil id (named c.base edge_type_key_id id)
          (named c.base edge_type_name_key_id type_name))
        o.if_not_exists o.bypass_cache []
        (create_action c.is_nil (λ v i. record v { base = base_with_id v.base i }) api
          (lit "/authz/edgetypes") o.if_not_exists id)
        (λ input v. edge_type_equals v input && same_id c.is_nil id v.id)

  -- An empty alias is stored as none.
  abbrev pub alias_of : Text → Option Text
  alias_of [] = none
  alias_of (a ∷ alias) = some (a ∷ alias)

  unfoldable pub create_object :
      Codec Object
      → Api State Object
      → Text
      → Text
      → Text
      → Text
      → MethodIds
      → State
      → State × Reply Object
  unfolding create_action
  create_object j api drawn id type_id alias =
      create_item p (object_items c j)
        (some (record {
          base = base_of c.is_nil drawn id;
          alias = alias_of alias;
          type_id = type_id;
          organization_id = o.organization_id;
        }))
        (lookup_key c.is_nil id (named c.base object_key_id id)
          (get_key_name c.base obj_alias_name_key_id (type_id ∷ alias ∷ o.organization_id ∷ [])))
        o.if_not_exists o.bypass_cache []
        (create_action c.is_nil (λ v i. record v { base = base_with_id v.base i }) api
          (lit "/authz/objects") o.if_not_exists id)
        (λ input v. object_equals v input && same_id c.is_nil id v.id)

  -- The collections that an edge may appear in.
  unfoldable pub edge_collections : Text → Text → List Key
  edge_collections source target =
      name_of (get_key_name c.base edges_obj_to_obj_id (source ∷ target ∷ []))
      ∷ name_of (named c.base obj_edges_key_id source)
      ∷ name_of (get_key_name c.base edges_obj_to_obj_id (target ∷ source ∷ []))
      ∷ name_of (named c.base obj_edges_key_id target)
      ∷ []

  unfoldable pub create_edge :
      Codec Edge
      → Api State Edge
      → Text
      → Text
      → Text
      → Text
      → Text
      → MethodIds
      → State
      → State × Reply Edge
  unfolding create_action edge_collections
  create_edge j api drawn id source target edge_type_id =
      create_item p (edge_items c j)
        (some (record {
          base = base_of c.is_nil drawn id;
          edge_type_id = edge_type_id;
          source_object_id = source;
          target_object_id = target;
        }))
        (lookup_key c.is_nil id (named c.base edge_key_id id)
          (get_key_name c.base edge_full_key_id (source ∷ target ∷ edge_type_id ∷ [])))
        o.if_not_exists o.bypass_cache (edge_collections source target)
        (create_action c.is_nil (λ v i. record v { base = base_with_id v.base i }) api
          (lit "/authz/edges") o.if_not_exists id)
        (λ input v. edge_equals v input && same_id c.is_nil id v.id)

  unfoldable pub create_organization :
      Codec Organization
      → Api State Organization
      → Text
      → Text
      → Text
      → Text
      → MethodIds
      → State
      → State × Reply Organization
  unfolding create_action
  create_organization j api drawn id name region =
      create_item p (organization_items c j)
        (some (record { base = base_of c.is_nil drawn id; name = name; region = region }))
        (lookup_key c.is_nil id (named c.base organization_key_id id)
          (named c.base organization_name_key_id name))
        o.if_not_exists o.bypass_cache []
        (create_action c.is_nil (λ v i. record v { base = base_with_id v.base i }) api
          (lit "/authz/organizations") o.if_not_exists id)
        (λ input v.
          text_eq v.name input.name && text_eq v.region input.region && same_id c.is_nil id v.id)
