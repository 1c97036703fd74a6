-- ===== src/Authz/Client/Edges.antt =====
-- authz/client.go: the edges of an object, and the edges between two objects.
use authzsdk.Prelude.{
  ℕ, zero, suc, Option, none, some, List, [], ◌∷◌, ◌++◌, Bool, true, false, ◌&&◌, Text, lit,
  text_eq, if◌then◌else◌, length,
}
use authzsdk.Cache.Sentinel.{Key, Sentinel, no_lock_sentinel}
use authzsdk.Cache.Provider.{Provider}
use authzsdk.Cache.Manager.Locks.{release_per_item_collection_lock}
use authzsdk.Cache.Manager.Loads.{
  Loaded, loaded_or_nothing, get_item_from_cache, get_items_array_from_cache,
}
use authzsdk.Cache.Manager.Saves.{
  SaveIds, save_items_from_collection_to_cache, save_items_to_collection,
}
use authzsdk.Authz.KeyNames.{
  get_key_name, edge_full_key_id, edges_obj_to_obj_id, obj_edges_key_id, edge_collection_key_id,
}
use authzsdk.Authz.Items.{named}
use authzsdk.Authz.Models.{Edge, Object}
use authzsdk.Authz.Client.{
  Sent, answer, refused, broken, Outcome, got, error, unexpected_count, error_of, request_failed,
  Page, Api, Options,
}
use authzsdk.Authz.Client.Types.{object_with_id, Setup, Codec, name_of, edge_items, object_items}

-- The loops over a list of edges: the first of a type, the first of a type to a target, all to a target.
unfoldable pub first_of_type : Text → List Edge → Option Edge
first_of_type edge_type_id [] = none
first_of_type edge_type_id (e ∷ es) =
    let later = first_of_type edge_type_id es in
    if text_eq e.edge_type_id edge_type_id then some e else later

unfoldable pub first_to : Text → Text → List Edge → Option Edge
first_to target edge_type_id [] = none
first_to target edge_type_id (e ∷ es) =
    let later = first_to target edge_type_id es in
    if text_eq e.target_object_id target && text_eq e.edge_type_id edge_type_id
    then some e
    else later

unfoldable pub all_to : Text → List Edge → List Edge
all_to target [] = []
all_to target (e ∷ es) =
    let later = all_to target es in if text_eq e.target_object_id target then e ∷ later else later

-- What one load of edges holds of what is looked for.
abbrev pub looked_up : (List Edge → Option Edge) → Option (List Edge) → Option Edge
looked_up pick none = none
looked_up pick (some es) = pick es

-- The texts that the loads of one call draw.
pub record FindIds : Type 0 where
  pub edge_ids : ℕ → Text
  pub between_ids : ℕ → Text
  pub around_ids : ℕ → Text
  pub lock_ids : ℕ → Text
  pub save_ids : Edge → SaveIds

abbrev pub edge_query : Text → Text → Text → List (Text × Text)
edge_query source target edge_type_id =
    (lit "source_object_id", source)
    ∷ (lit "target_object_id", target)
    ∷ (lit "edge_type_id", edge_type_id)
    ∷ []

module _ (p : Provider) (c : Setup) (o : Options) where
  open p use {State}

  module _ (jo : Codec Object) (j : Codec Edge) where
    abbrev pub edges_between_key : Text → Text → Key
    edges_between_key source target =
        name_of (get_key_name c.base edges_obj_to_obj_id (source ∷ target ∷ []))

    abbrev pub edges_around_key : Text → Key
    edges_around_key id = name_of (named c.base obj_edges_key_id id)

    -- A load of a slice of edges without its error, which the callers only log.
    abbrev pub load_edges : Key → Bool → (ℕ → Text) → State → State × Loaded (List Edge)
    load_edges key lock ids s =
        let r = get_items_array_from_cache p (edge_items c j) key lock ids s in
        (r.0, loaded_or_nothing r.1)

    -- The lookups of FindEdge in the cache: by its ends, then among the edges between, then among those
    -- around the source.
    abbrev pub load_edge : Text → Text → Text → FindIds → State → State × Option Edge
    load_edge source target edge_type_id ids s =
        let key =
          name_of (get_key_name c.base edge_full_key_id (source ∷ target ∷ edge_type_id ∷ [])) in
        let r = get_item_from_cache p (edge_items c j) key false ids.edge_ids s in
        (r.0, (loaded_or_nothing r.1).item)

    abbrev pub load_between : Text → Text → Text → FindIds → State → State × Loaded (List Edge)
    load_between source target edge_type_id ids s =
        load_edges (edges_between_key source target) false ids.between_ids
          (load_edge source target edge_type_id ids s).0

    abbrev pub load_around : Text → Text → Text → FindIds → State → State × Loaded (List Edge)
    load_around source target edge_type_id ids s =
        load_edges (edges_around_key source) false ids.around_ids
          (load_between source target edge_type_id ids s).0

    unfoldable pub find_cached : Text → Text → Text → FindIds → State → State × Option Edge
    unfolding first_of_type first_to
    find_cached source target edge_type_id ids s =
        let one = load_edge source target edge_type_id ids s in
        let between = load_between source target edge_type_id ids s in
        let around = load_around source target edge_type_id ids s in
        elim one.1 [
          | some e ↦ (one.0, some e)
          | none ↦ elim (looked_up (first_of_type edge_type_id) between.1.item) [
            | some e ↦ (between.0, some e)
            | none ↦ (around.0, looked_up (first_to target edge_type_id) around.1.item)
          ]
        ]

    -- What FindEdge makes of the response of the server.
    abbrev pub found_edge :
        Sentinel → (Edge → SaveIds) → State × Sent (Page Edge) → State × Outcome Edge
    found_edge lock ids (s, answer page) = elim page.data_ [
      | [] ↦ (s, error (unexpected_count 0))
      | e ∷ es ↦ elim es [
        | [] ↦ (save_items_from_collection_to_cache p (edge_items c j) page.data_ lock ids s, got e)
        | e' ∷ es' ↦ (s, error (unexpected_count (length page.data_)))
      ]
    ]
    found_edge lock ids (s, refused status body) = (s, error (error_of status))
    found_edge lock ids (s, broken) = (s, error request_failed)

    unfoldable pub find_edge :
        Api State Edge → Text → Text → Text → FindIds → State → State × Outcome Edge
    unfolding find_cached
    find_edge api source target edge_type_id ids s =
        let cached = find_cached source target edge_type_id ids s in
        let locked =
          get_items_array_from_cache p (object_items c jo)
            (name_of (get_key_name c.base edge_collection_key_id [])) true ids.lock_ids cached.0 in
        let request = api.get_page (lit "/authz/edges") (edge_query source target edge_type_id) in
        if o.bypass_cache
        then found_edge no_lock_sentinel ids.save_ids (request s)
        else elim cached.1 [
          | some e ↦ (cached.0, got e)
          | none ↦ found_edge (loaded_or_nothing locked.1).lock ids.save_ids (request locked.0)
        ]

    -- The loop of ListEdgesBetweenObjects, whose query stays the same, on fuel: the edges so far, and in
    -- the end these with the last page.
    unfoldable pub pages_of :
        (State → State × Sent (Page Edge))
        → ℕ
        → List Edge
        → State
        → Option (State × Outcome (List Edge × List Edge))
    pages_of request zero edges s = none
    pages_of request (suc fuel) edges s =
        let r = request s in
        elim r.1 [
          | answer page ↦
              let more = pages_of request fuel (edges ++ page.data_) r.0 in
              if page.has_next then more else some (r.0, got (edges ++ page.data_, page.data_))
          | refused status body ↦ some (r.0, error (error_of status))
          | broken ↦ some (r.0, error request_failed)
        ]

    -- Its end: what the last page holds is saved, all that was read is returned.
    abbrev pub list_saved :
        Object
        → Key
        → Sentinel
        → State × Outcome (List Edge × List Edge)
        → State × Outcome (List Edge)
    list_saved obj key lock (s, error e) = (s, error e)
    list_saved obj key lock (s, got (edges, last)) = (
      save_items_to_collection p (object_items c jo) (edge_items c j) obj last key key lock false s,
      got edges,
    )

    abbrev pub released :
        Object
        → Key
        → Sentinel
        → Option (State × Outcome (List Edge))
        → Option (State × Outcome (List Edge))
    released obj key lock none = none
    released obj key lock (some (s, r)) =
        some
          (release_per_item_collection_lock p (key ∷ []) ((object_items c jo).keys obj) lock s, r)

    abbrev pub list_saved_if :
        Object
        → Key
        → Sentinel
        → Option (State × Outcome (List Edge × List Edge))
        → Option (State × Outcome (List Edge))
    list_saved_if obj key lock none = none
    list_saved_if obj key lock (some r) = some (list_saved obj key lock r)

    -- ListEdgesBetweenObjects, on fuel for the loop.
    unfoldable pub list_edges_between_objects :
        Api State Edge
        → Text
        → Text
        → Text
        → (ℕ → Text)
        → (ℕ → Text)
        → ℕ
        → State
        → Option (State × Outcome (List Edge))
    unfolding pages_of all_to
    list_edges_between_objects api nil source target around_ids between_ids fuel s =
        let obj = object_with_id nil source in
        let key = edges_between_key source target in
        let request =
          api.get_page (lit "/authz/objects/" ++ source ++ lit "/edges")
            ((lit "target_object_id", target) ∷ []) in
        let around = load_edges (edges_around_key source) false around_ids s in
        let between = load_edges key true between_ids around.0 in
        if o.bypass_cache
        then list_saved_if obj key no_lock_sentinel (pages_of request fuel [] s)
        else elim around.1.item [
          | some es ↦ some (around.0, got (all_to target es))
          | none ↦ elim between.1.item [
            | some es ↦ some (between.0, got es)
            | none ↦
                released obj key between.1.lock
                  (list_saved_if obj key between.1.lock (pages_of request fuel [] between.0))
          ]
        ]
