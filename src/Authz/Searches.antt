-- ===== src/Authz/Searches.antt =====
-- What FindEdge of authz/client.go finds.
use authzsdk.Prelude.{
  ◌≡◌, ◌≢◌, refl, ap, sym, subst, ◌∙◌, ◌⊎◌, inl, inr, Option, none, some, List, [], ◌∷◌, true, ◌&&◌,
  Text, text_eq, eq_of_text_eq, lit, Bool-cases, Option-cases, arith, All, length,
}
use authzsdk.Cache.Sentinel.{Sentinel, no_lock_sentinel}
use authzsdk.Cache.Provider.{Provider}
use authzsdk.Cache.Manager.Loads.{loaded_or_nothing, get_items_array_from_cache}
use authzsdk.Cache.Manager.Saves.{SaveIds}
use authzsdk.Authz.KeyNames.{get_key_name, edge_collection_key_id}
use authzsdk.Authz.Models.{Edge, Object}
use authzsdk.Authz.Client.{
  Sent, answer, refused, broken, got, error, unexpected_count, Page, Api, Options,
}
use authzsdk.Authz.Client.Types.{Setup, Codec, name_of, object_items}
use authzsdk.Authz.Client.Edges.{
  FindIds, first_of_type, first_to, looked_up, load_edge, load_between, load_around, find_cached,
  found_edge, find_edge, edge_query,
}

-- An edge between two objects, of a type, and an edge at an object.
abbrev pub IsBetween : Text → Text → Edge → Type 0
IsBetween source target e = (e.source_object_id ≡ source) × (e.target_object_id ≡ target)

abbrev pub Joins : Text → Text → Text → Edge → Type 0
Joins source target edge_type_id e = IsBetween source target e × (e.edge_type_id ≡ edge_type_id)

abbrev pub IsAt : Text → Edge → Type 0
IsAt id e = (e.source_object_id ≡ id) ⊎ (e.target_object_id ≡ id)

first_of_type-Joins :
    (source target edge_type_id : Text) (es : List Edge) (e : Edge)
    → All (IsBetween source target) es
    → first_of_type edge_type_id es ≡ some e
    → Joins source target edge_type_id e
unfolding first_of_type
first_of_type-Joins source target edge_type_id [] e all h = absurd (cc)
first_of_type-Joins source target edge_type_id (x ∷ es) e (b, all) h =
    elim (Bool-cases (text_eq x.edge_type_id edge_type_id)) [
      | inl k ↦
          let q : x ≡ e = ground (arith, h, k) in
          subst (Joins source target edge_type_id) q
            (b, eq_of_text_eq x.edge_type_id edge_type_id k)
      | inr k ↦ first_of_type-Joins source target edge_type_id es e all (ground (arith, h, k))
    ]

first_to-Joins :
    (source target edge_type_id : Text) (es : List Edge) (e : Edge)
    → source ≢ target
    → All (IsAt source) es
    → first_to target edge_type_id es ≡ some e
    → Joins source target edge_type_id e
unfolding first_to
first_to-Joins source target edge_type_id [] e n all h = absurd (cc)
first_to-Joins source target edge_type_id (x ∷ es) e n (b, all) h =
    elim (Bool-cases (text_eq x.target_object_id target && text_eq x.edge_type_id edge_type_id)) [
      | inl k ↦
          let q : x ≡ e = ground (arith, h, k) in
          let to : x.target_object_id ≡ target =
            eq_of_text_eq x.target_object_id target (ground (arith, k)) in
          subst (Joins source target edge_type_id) q (
            (elim b [ inl f ↦ f | inr f ↦ absurd (n (sym f ∙ to)) ], to),
            eq_of_text_eq x.edge_type_id edge_type_id (ground (arith, k)),
          )
      | inr k ↦ first_to-Joins source target edge_type_id es e n all (ground (arith, h, k))
    ]

-- A list is empty, of one element, or of more.
three_cases :
    (es : List Edge)
    → (es ≡ [])
      ⊎ (((e : Edge) × (es ≡ e ∷ []))
          ⊎ ((e : Edge) × ((e' : Edge) × ((rest : List Edge) × (es ≡ e ∷ e' ∷ rest)))))
three_cases [] = inl refl
three_cases (e ∷ []) = inr (inl (e, refl))
three_cases (e ∷ e' ∷ rest) = inr (inr (e, (e', (rest, refl))))

got_inj : {A : Type 0} (a b : A) → got a ≡ got b → a ≡ b
got_inj a b h = cc

module _ (p : Provider) (c : Setup) (o : Options) (jo : Codec Object) (j : Codec Edge) where
  open p use {State}

  found_edge-Joins :
      (P : Edge → Type 0) (lock : Sentinel) (ids : Edge → SaveIds) (r : State × Sent (Page Edge))
      (e : Edge)
      → ((page : Page Edge) → r.1 ≡ answer page → All P page.data_)
      → (found_edge p c o jo j lock ids r).1 ≡ got e
      → P e
  found_edge-Joins P lock ids (s, broken) e all h = absurd (cc (h))
  found_edge-Joins P lock ids (s, refused status body) e all h = absurd (cc (h))
  found_edge-Joins P lock ids (s, answer page) e all h =
      let r = found_edge p c o jo j lock ids (s, answer page) in
      elim (three_cases page.data_) [
        | inl k ↦ let f : r.1 ≡ error (unexpected_count 0) = rw k refl in absurd (cc (f, h))
        | inr (inl (a, k)) ↦
            let f : r.1 ≡ got a = rw k refl in
            let one : All P (a ∷ []) = subst (All P) k (all page refl) in
            subst P (got_inj a e (sym f ∙ h)) one.0
        | inr (inr (a, (b, (rest, k)))) ↦
            let f : r.1 ≡ error (unexpected_count (length (a ∷ b ∷ rest))) = rw k refl in
            absurd (cc (f, h))
      ]

  looked_up-Joins :
      (P : Edge → Type 0) (Q : List Edge → Type 0) (pick : List Edge → Option Edge)
      (loaded : Option (List Edge)) (e : Edge)
      → ((es : List Edge) → loaded ≡ some es → Q es)
      → ((es : List Edge) → Q es → pick es ≡ some e → P e)
      → looked_up pick loaded ≡ some e
      → P e
  looked_up-Joins P Q pick none e q picked h = absurd (cc (h))
  looked_up-Joins P Q pick (some es) e q picked h = picked es (q es refl) h

  -- What the lookups of FindEdge in the cache hold, if each of its entries holds what its key says.
  find_cached-Joins :
      (source target edge_type_id : Text) (ids : FindIds) (s : State) (e : Edge)
      → source ≢ target
      → ((a : Edge)
          → (load_edge p c o jo j source target edge_type_id ids s).1 ≡ some a
          → Joins source target edge_type_id a)
      → ((es : List Edge)
          → (load_between p c o jo j source target edge_type_id ids s).1.item ≡ some es
          → All (IsBetween source target) es)
      → ((es : List Edge)
          → (load_around p c o jo j source target edge_type_id ids s).1.item ≡ some es
          → All (IsAt source) es)
      → (find_cached p c o jo j source target edge_type_id ids s).1 ≡ some e
      → Joins source target edge_type_id e
  unfolding find_cached
  find_cached-Joins source target edge_type_id ids s e n one between around h =
      let found = find_cached p c o jo j source target edge_type_id ids s in
      let first = load_edge p c o jo j source target edge_type_id ids s in
      let second =
        looked_up (first_of_type edge_type_id)
          (load_between p c o jo j source target edge_type_id ids s).1.item in
      elim (Option-cases first.1) [
        | inr (a, k) ↦
            let f : found.1 ≡ some a = rw (k, find_cached) refl in one e (k ∙ (sym f ∙ h))
        | inl k ↦ elim (Option-cases second) [
          | inr (a, m) ↦
              let f : found.1 ≡ some a = rw (k, find_cached) (rw m refl) in
              looked_up-Joins (Joins source target edge_type_id) (All (IsBetween source target))
                (first_of_type edge_type_id) _ e between
                (λ es all. first_of_type-Joins source target edge_type_id es e all)
                (m ∙ (sym f ∙ h))
          | inl m ↦
              let f : found.1
                  ≡ looked_up (first_to target edge_type_id)
                      (load_around p c o jo j source target edge_type_id ids s).1.item =
                rw (k, find_cached) (rw m refl) in
              looked_up-Joins (Joins source target edge_type_id) (All (IsAt source))
                (first_to target edge_type_id) _ e around
                (λ es all. first_to-Joins source target edge_type_id es e n all) (sym f ∙ h)
        ]
      ]

  -- The edge that FindEdge returns, from whatever source and by any options, is one of the type from
  -- the source to the target, if these are two objects, each entry of the cache that it reads holds
  -- what its key says, and so does each page of the server.
  pub find_edge-Joins :
      (api : Api State Edge) (source target edge_type_id : Text) (ids : FindIds) (s : State)
      (e : Edge)
      → source ≢ target
      → ((a : Edge)
          → (load_edge p c o jo j source target edge_type_id ids s).1 ≡ some a
          → Joins source target edge_type_id a)
      → ((es : List Edge)
          → (load_between p c o jo j source target edge_type_id ids s).1.item ≡ some es
          → All (IsBetween source target) es)
      → ((es : List Edge)
          → (load_around p c o jo j source target edge_type_id ids s).1.item ≡ some es
          → All (IsAt source) es)
      → ((u : State) (page : Page Edge)
          → (api.get_page (lit "/authz/edges") (edge_query source target edge_type_id) u).1
            ≡ answer page
          → All (Joins source target edge_type_id) page.data_)
      → (find_edge p c o jo j api source target edge_type_id ids s).1 ≡ got e
      → Joins source target edge_type_id e
  unfolding find_edge
  find_edge-Joins api source target edge_type_id ids s e n one between around pages h =
      let found = find_edge p c o jo j api source target edge_type_id ids s in
      let cached = find_cached p c o jo j source target edge_type_id ids s in
      let request = api.get_page (lit "/authz/edges") (edge_query source target edge_type_id) in
      let locked =
        get_items_array_from_cache p (object_items c jo)
          (name_of (get_key_name c.base edge_collection_key_id [])) true ids.lock_ids cached.0 in
      let lock = (loaded_or_nothing locked.1).lock in
      elim (Bool-cases o.bypass_cache) [
        | inl b ↦
            let f : found.1 ≡ (found_edge p c o jo j no_lock_sentinel ids.save_ids (request s)).1 =
              rw (b, find_edge) refl in
            found_edge-Joins (Joins source target edge_type_id) no_lock_sentinel ids.save_ids
              (request s) e (pages s) (sym f ∙ h)
        | inr b ↦ elim (Option-cases cached.1) [
          | inr (a, k) ↦
              let f : found.1 ≡ got a = rw (b, find_edge) (rw k refl) in
              find_cached-Joins source target edge_type_id ids s e n one between around
                (k ∙ ap some (got_inj a e (sym f ∙ h)))
          | inl k ↦
              let f : found.1 ≡ (found_edge p c o jo j lock ids.save_ids (request locked.0)).1 =
                rw (b, find_edge) (rw k refl) in
              found_edge-Joins (Joins source target edge_type_id) lock ids.save_ids
                (request locked.0) e (pages locked.0) (sym f ∙ h)
        ]
      ]
