-- ===== src/Authz/PathChecks.antt =====
-- The lock of CheckAttribute of authz/client.go, over the in-memory provider.
use authzsdk.Prelude.{
  ℕ, ◌<◌, ◌≡◌, ◌≢◌, refl, ap, sym, ◌∙◌, none, some, List, [], Bool, true, false, Text, lit,
  text_eq_refl, text_eq_ne, contains, arith, if◌then◌else◌,
}
use authzsdk.Cache.Sentinel.{Key, Sentinel, read, generate_sentinel}
use authzsdk.Cache.Store.{str, GoCache}
use authzsdk.Cache.Loading.{load_locks, release_sentinel-gone, release_sentinel-frees}
use authzsdk.Cache.Getting.{generate_sentinel-ne}
use authzsdk.Cache.Provider.{in_memory}
use authzsdk.Cache.Manager.Locks.{release_per_item_collection_lock}
use authzsdk.Authz.Models.{Object, AttributePathNode}
use authzsdk.Authz.Client.{Sent, answer, Options}
use authzsdk.Authz.Client.Types.{object_with_id, Setup, Codec, path_node_items, ttl_of, edge_ttl}
use authzsdk.Authz.Client.Paths.{
  CheckAttributeResponse, path_key, path_query, check_server, check_attribute, unless_path,
}

if_false : {A : Type 0} (b : Bool) (x y : A) → b ≡ false → (if b then x else y) ≡ y
if_false true x y h = absurd (cc)
if_false false x y h = refl

module _ (g : GoCache) (ttl : ℕ) (c : Setup) (o : Options) (jo : Codec Object)
    (j : Codec AttributePathNode) where
  open g use {State, get}

  -- CheckAttribute that finds nothing in the cache goes on with the read lock.
  check_attribute_misses :
      (send : Text → List (Text × Text) → State → State × Sent CheckAttributeResponse)
      (nil source target attribute : Text) (ids : ℕ → Text) (s : State)
      → o.bypass_cache ≡ false
      → 0 < ttl_of c.ttls edge_ttl 0
      → path_key c source target attribute ≢ []
      → get s (path_key c source target attribute) ≡ none
      → (u : State) × (get u (path_key c source target attribute)
          ≡ some (str (generate_sentinel read (ids 1))))
        × (check_attribute (in_memory g ttl) c o jo j send nil source target attribute ids s
            ≡ check_server
                (in_memory g ttl)
                c
                o
                jo
                j
                (send (lit "/authz/checkattribute") (path_query source target attribute))
                (object_with_id nil source)
                (path_key c source target attribute)
                (generate_sentinel read (ids 1))
                u)
  unfolding check_attribute
  check_attribute_misses send nil source target attribute ids s b l named free =
      let (u, held, e) =
        load_locks g ttl (path_node_items c j) (path_key c source target attribute) ids s l named
          free in
      let request = send (lit "/authz/checkattribute") (path_query source target attribute) in
      let k = path_key c source target attribute in
      (
        u,
        held,
        if_false o.bypass_cache _ _ b
            ∙ ap (unless_path (in_memory g ttl) c o jo j request (object_with_id nil source) k) e,
      )

  -- The lock of a check stands in its keys at the end no more.
  check_server_releases :
      (request : State → State × Sent CheckAttributeResponse) (obj : Object) (k : Key)
      (x : Sentinel) (s : State)
      → x ≢ []
      → k ≢ []
      → get (check_server (in_memory g ttl) c o jo j request obj k x s).0 k ≢ some (str x)
  unfolding check_server release_per_item_collection_lock contains
  check_server_releases request obj k x s n named =
      rw (text_eq_ne x [] n)
        (release_sentinel-gone g ttl _ _ x k n (ground (arith, text_eq_refl k)) named)

  check_server_negative :
      (request : State → State × Sent CheckAttributeResponse) (obj : Object) (k : Key)
      (x : Sentinel) (s u : State) (r : CheckAttributeResponse)
      → x ≢ []
      → k ≢ []
      → request s ≡ (u, answer r)
      → r.has_attribute ≡ false
      → get u k ≡ some (str x)
      → get (check_server (in_memory g ttl) c o jo j request obj k x s).0 k ≡ none
  unfolding check_server release_per_item_collection_lock contains
  check_server_negative request obj k x s u r n named e negative held = rw (text_eq_ne x [] n) (
      rw e (
        rw negative
          (release_sentinel-frees g ttl _ u x k n (ground (arith, text_eq_refl k)) named held)))

  -- CheckAttribute that finds its key free takes a read lock there, and whatever the server and other
  -- clients do meanwhile, the lock stands in the key at the end no more, also after an error.
  pub check_attribute_releases :
      (send : Text → List (Text × Text) → State → State × Sent CheckAttributeResponse)
      (nil source target attribute : Text) (ids : ℕ → Text) (s : State)
      → o.bypass_cache ≡ false
      → 0 < ttl_of c.ttls edge_ttl 0
      → path_key c source target attribute ≢ []
      → get s (path_key c source target attribute) ≡ none
      → get
          (check_attribute (in_memory g ttl) c o jo j send nil source target attribute ids s).0
          (path_key c source target attribute)
        ≢ some (str (generate_sentinel read (ids 1)))
  check_attribute_releases send nil source target attribute ids s b l named free h =
      let k = path_key c source target attribute in
      let x = generate_sentinel read (ids 1) in
      let request = send (lit "/authz/checkattribute") (path_query source target attribute) in
      let (u, held, e) =
        check_attribute_misses send nil source target attribute ids s b l named free in
      check_server_releases request (object_with_id nil source) k x u
        (generate_sentinel-ne read (ids 1)) named (sym (ap (λ z. get z.0 k) e) ∙ h)

  -- When the cache is not bypassed, the edges' lifetime is positive, and the key of the check is not
  -- empty and free at first, so that CheckAttribute takes a read lock there, and the server says no,
  -- whatever other clients change in the cache meanwhile except that nobody takes this lock away, then
  -- CheckAttribute leaves its key free: a negative answer is not cached.
  pub check_attribute_negative :
      (send : Text → List (Text × Text) → State → State × Sent CheckAttributeResponse)
      (nil source target attribute : Text) (ids : ℕ → Text) (s : State) (r : CheckAttributeResponse)
      → o.bypass_cache ≡ false
      → 0 < ttl_of c.ttls edge_ttl 0
      → path_key c source target attribute ≢ []
      → get s (path_key c source target attribute) ≡ none
      → r.has_attribute ≡ false
      → ((path : Text) (query : List (Text × Text)) (u : State)
          → (w : State) × (send path query u ≡ (w, answer r))
            × (get u (path_key c source target attribute)
                  ≡ some (str (generate_sentinel read (ids 1)))
                → get w (path_key c source target attribute)
                  ≡ some (str (generate_sentinel read (ids 1)))))
      → get
          (check_attribute (in_memory g ttl) c o jo j send nil source target attribute ids s).0
          (path_key c source target attribute)
        ≡ none
  check_attribute_negative send nil source target attribute ids s r b l named free negative server =
      let k = path_key c source target attribute in
      let x = generate_sentinel read (ids 1) in
      let request = send (lit "/authz/checkattribute") (path_query source target attribute) in
      let (u, held, e) =
        check_attribute_misses send nil source target attribute ids s b l named free in
      let (w, sent, kept) =
        server (lit "/authz/checkattribute") (path_query source target attribute) u in
      ap (λ z. get z.0 k) e
      ∙ check_server_negative request (object_with_id nil source) k x u w r
          (generate_sentinel-ne read (ids 1)) named sent negative (kept held)
