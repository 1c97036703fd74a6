-- ===== src/Authz/Client/Paths.antt =====
-- authz/client.go: CheckAttribute, whose paths are cached.
use authzsdk.Prelude.{ℕ, none, some, List, [], ◌∷◌, Bool, true, false, Text, lit, if◌then◌else◌}
use authzsdk.Cache.Sentinel.{Key, Sentinel, no_lock_sentinel}
use authzsdk.Cache.Provider.{Provider}
use authzsdk.Cache.Manager.{Reply, reply, failed}
use authzsdk.Cache.Manager.Locks.{release_per_item_collection_lock}
use authzsdk.Cache.Manager.Loads.{Loaded, get_items_array_from_cache}
use authzsdk.Cache.Manager.Saves.{save_items_to_collection}
use authzsdk.Authz.KeyNames.{get_key_name, attribute_path_obj_to_obj_id}
use authzsdk.Authz.Models.{Object, AttributePathNode}
use authzsdk.Authz.Client.{Sent, answer, refused, broken, plain_outcome, Outcome, got, Options}
use authzsdk.Authz.Client.Types.{
  object_with_id, Setup, Codec, name_of, object_items, path_node_items,
}

pub record CheckAttributeResponse : Type 0 where
  pub has_attribute : Bool
  pub path : List AttributePathNode

abbrev pub path_key : Setup → Text → Text → Text → Key
path_key c source target attribute =
    name_of (get_key_name c.base attribute_path_obj_to_obj_id (source ∷ target ∷ attribute ∷ []))

abbrev pub path_query : Text → Text → Text → List (Text × Text)
path_query source target attribute =
    (lit "source_object_id", source)
    ∷ (lit "target_object_id", target)
    ∷ (lit "attribute", attribute)
    ∷ []

module _ (p : Provider) (c : Setup) (o : Options) where
  open p use {State}

  module _ (jo : Codec Object) (j : Codec AttributePathNode) where
    -- Only a path that exists is saved.
    abbrev pub answer_checked :
        Object
        → Key
        → Sentinel
        → State × Sent CheckAttributeResponse
        → State × Outcome CheckAttributeResponse
    answer_checked obj key lock (s, answer r) = (
      if r.has_attribute
          then save_items_to_collection p (object_items c jo) (path_node_items c j) obj r.path key
              key lock false s
          else s,
      got r,
    )
    answer_checked obj key lock (s, refused status body) = (s, plain_outcome (refused status body))
    answer_checked obj key lock (s, broken) = (s, plain_outcome broken)

    -- CheckAttribute behind the lookup in the cache; the lock is released last.
    unfoldable pub check_server :
        (State → State × Sent CheckAttributeResponse)
        → Object
        → Key
        → Sentinel
        → State
        → State × Outcome CheckAttributeResponse
    check_server request obj key lock s =
        let r = answer_checked obj key lock (request s) in
        (release_per_item_collection_lock p (key ∷ []) ((object_items c jo).keys obj) lock r.0, r.1)

    -- What follows the lookup, whose error is only logged.
    abbrev pub unless_path :
        (State → State × Sent CheckAttributeResponse)
        → Object
        → Key
        → State × Reply (Loaded (List AttributePathNode))
        → State × Outcome CheckAttributeResponse
    unless_path request obj key (s, failed e) = check_server request obj key no_lock_sentinel s
    unless_path request obj key (s, reply l) = elim l.item [
      | some path ↦ (s, got (record { has_attribute = true; path = path }))
      | none ↦ check_server request obj key l.lock s
    ]

    unfoldable pub check_attribute :
        (Text → List (Text × Text) → State → State × Sent CheckAttributeResponse)
        → Text
        → Text
        → Text
        → Text
        → (ℕ → Text)
        → State
        → State × Outcome CheckAttributeResponse
    unfolding check_server
    check_attribute get nil source target attribute ids s =
        let obj = object_with_id nil source in
        let key = path_key c source target attribute in
        let request = get (lit "/authz/checkattribute") (path_query source target attribute) in
        if o.bypass_cache
        then check_server request obj key no_lock_sentinel s
        else unless_path request obj key
            (get_items_array_from_cache p (path_node_items c j) key true ids s)
