-- ===== src/Authz/Client/Updates.antt =====
-- authz/client.go: the updates of objects, edge types and organizations.
use authzsdk.Prelude.{
  Option, none, some, List, [], ◌++◌, Bool, true, false, ◌&&◌, Text, lit, text_eq, if◌then◌else◌,
}
use authzsdk.Cache.Sentinel.{Sentinel, update, no_lock_sentinel}
use authzsdk.Cache.Provider.{Provider}
use authzsdk.Cache.Manager.{ItemType, Reply, reply, failed}
use authzsdk.Cache.Manager.Locks.{take_item_lock, release_item_lock}
use authzsdk.Cache.Manager.Loads.{Loaded, loaded_or_nothing, get_item_from_cache}
use authzsdk.Cache.Manager.Saves.{SaveIds, save_item_to_cache}
use authzsdk.Cache.Manager.Methods.{MethodIds}
use authzsdk.Authz.KeyNames.{edge_type_key_id, object_key_id}
use authzsdk.Authz.Items.{named}
use authzsdk.Authz.Models.{Attribute, EdgeType, Object, Organization, edge_type_equals, alias_eq}
use authzsdk.Authz.Client.{
  Sent, answer, refused, broken, outcome, plain_outcome, Outcome, got, error, cache_error, Options,
}
use authzsdk.Authz.Client.Types.{
  Setup, Codec, name_of, edge_type_items, object_items, organization_items, new_base_with_id,
}

-- The bodies of the requests.
pub record UpdateObjectRequest : Type 0 where
  pub id : Text
  pub alias : Option Text
  pub source : Option Text

pub record UpdateEdgeTypeRequest : Type 0 where
  pub type_name : Text
  pub attributes : List Attribute

pub record UpdateOrganizationRequest : Type 0 where
  pub name : Text
  pub region : Text

module _ (p : Provider) (c : Setup) (o : Options) where
  open p use {State}

  -- The save of what an update returned.
  abbrev pub saved :
      (t : ItemType)
      → (Sent t.Value → Outcome t.Value)
      → Sentinel
      → SaveIds
      → State × Sent t.Value
      → State × Outcome t.Value
  saved t returned lock ids (s, answer v) = (save_item_to_cache p t v lock true [] ids s, got v)
  saved t returned lock ids (s, refused status body) = (s, returned (refused status body))
  saved t returned lock ids (s, broken) = (s, returned broken)

  -- An update under a lock, which is released behind it, and `after` a successful one.
  abbrev pub locked_update :
      (t : ItemType)
      → t.Value
      → (State → State × Sent t.Value)
      → (State → State)
      → SaveIds
      → State × Reply Sentinel
      → State × Outcome t.Value
  locked_update t v put after ids (s, failed e) = (s, error (cache_error e))
  locked_update t v put after ids (s, reply lock) =
      let r = saved t outcome lock ids (put s) in
      (
        release_item_lock p update (t.keys v) lock (elim r.1 [ got w ↦ after r.0 | error e ↦ r.0 ]),
        r.1,
      )

  -- The cached item, if it is as the update would leave it.
  abbrev pub unless_current :
      {A : Type 0} → (A → Bool) → Loaded A → State × Outcome A → State → State × Outcome A
  unless_current current l updated s = elim l.item [
    | none ↦ updated
    | some v ↦ if current v then (s, got v) else updated
  ]

  unfoldable pub update_edge_type :
      Codec EdgeType
      → (Text → UpdateEdgeTypeRequest → State → State × Sent EdgeType)
      → Text
      → Text
      → Text
      → Text
      → List Attribute
      → MethodIds
      → State
      → State × Outcome EdgeType
  update_edge_type j put id source target type_name attributes ids s =
      let t = edge_type_items c j in
      let new : EdgeType = record {
        base = new_base_with_id id;
        type_name = type_name;
        source_object_type_id = source;
        target_object_type_id = target;
        attributes = attributes;
        organization_id = o.organization_id;
      } in
      let request =
        put (lit "/authz/edgetypes/" ++ id)
          (record { type_name = type_name; attributes = attributes }) in
      let run = λ (u : State).
        locked_update t new request (p.flush c.base true) ids.save_ids
          (take_item_lock p update (t.keys new) ids.lock_ids u) in
      let found =
        get_item_from_cache p t (name_of (named c.base edge_type_key_id id)) false ids.load_ids s in
      if o.bypass_cache
      then run s
      else unless_current (λ v. text_eq v.id id && edge_type_equals v new)
          (loaded_or_nothing found.1) (run found.0) found.0

  -- UpdateObject. `user_object_type_id` is the text of UserObjectTypeID, `nil` that of uuid.Nil.
  unfoldable pub update_object :
      Codec Object
      → (Text → UpdateObjectRequest → State → State × Sent Object)
      → Text
      → Text
      → Text
      → Option Text
      → Option Text
      → MethodIds
      → State
      → State × Outcome Object
  update_object j put user_object_type_id nil id alias source ids s =
      let t = object_items c j in
      let new : Object = record {
        base = new_base_with_id id;
        alias = none;
        type_id = user_object_type_id;
        organization_id = nil;
      } in
      let request =
        put (lit "/authz/objects/" ++ id) (record { id = id; alias = alias; source = source }) in
      let run = λ (u : State).
        locked_update t new request (λ w. w) ids.save_ids
          (take_item_lock p update (t.keys new) ids.lock_ids u) in
      let found =
        get_item_from_cache p t (name_of (named c.base object_key_id id)) false ids.load_ids s in
      if o.bypass_cache
      then run s
      else unless_current (λ v. alias_eq v.alias alias) (loaded_or_nothing found.1) (run found.0)
          found.0

  abbrev pub update_with_lock :
      (t : ItemType)
      → (State → State × Sent t.Value)
      → SaveIds
      → State × Reply Sentinel
      → State × Outcome t.Value
  update_with_lock t put ids (s, failed e) = (s, error (cache_error e))
  update_with_lock t put ids (s, reply lock) = saved t plain_outcome lock ids (put s)

  -- UpdateOrganization releases no lock.
  unfoldable pub update_organization :
      Codec Organization
      → (Text → UpdateOrganizationRequest → State → State × Sent Organization)
      → Text
      → Text
      → Text
      → MethodIds
      → State
      → State × Outcome Organization
  update_organization j put id name region ids s =
      let t = organization_items c j in
      let new : Organization = record { base = new_base_with_id id; name = []; region = [] } in
      let request =
        put (lit "/authz/organizations/" ++ id) (record { name = name; region = region }) in
      update_with_lock t request ids.save_ids (
        if o.bypass_cache
        then (s, reply no_lock_sentinel)
        else take_item_lock p update (t.keys new) ids.lock_ids s)
