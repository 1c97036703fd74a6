-- ===== src/Authz/Endings.antt =====
-- The loop of ListEdgesBetweenObjects of authz/client.go, whose query never moves on.
use authzsdk.Prelude.{ℕ, zero, suc, ◌≡◌, refl, none, List, [], ◌∷◌, ◌++◌, true, Text, lit}
use authzsdk.Cache.Provider.{Provider}
use authzsdk.Authz.Models.{Edge, Object}
use authzsdk.Authz.Client.{Sent, answer, Page, Api, Options}
use authzsdk.Authz.Client.Types.{Setup, Codec}
use authzsdk.Authz.Client.Edges.{pages_of, list_edges_between_objects}

module _ (p : Provider) (c : Setup) (o : Options) (jo : Codec Object) (j : Codec Edge) where
  open p use {State}

  -- The loop of ListEdgesBetweenObjects asks one query: while that has a next page, it does not end.
  pages_again :
      (request : State → State × Sent (Page Edge)) (fuel : ℕ) (edges : List Edge) (s : State)
      → ((u : State) → (page : Page Edge) × ((request u).1 ≡ answer page) × (page.has_next ≡ true))
      → pages_of p c o jo j request fuel edges s ≡ none
  unfolding pages_of
  pages_again request zero edges s next = refl
  pages_again request (suc fuel) edges s next =
      let (page, e, more) = next s in
      rw (e, pages_of) (rw more (pages_again request fuel (edges ++ page.data_) (request s).0 next))

  -- ListEdgesBetweenObjects that bypasses the cache does not end, whatever fuel it has, if the server
  -- has a next page behind its first one, that is, answers so to the query that names the target and no
  -- cursor. Of the other queries, as the one for that next page, nothing is assumed.
  pub list_edges_never_ends :
      (api : Api State Edge) (nil source target : Text) (around_ids between_ids : ℕ → Text)
      (fuel : ℕ) (s : State)
      → o.bypass_cache ≡ true
      → ((u : State)
          → (page : Page Edge) × ((api.get_page
                (lit "/authz/objects/" ++ source ++ lit "/edges")
                ((lit "target_object_id", target) ∷ [])
                u).1
              ≡ answer page)
            × (page.has_next ≡ true))
      → list_edges_between_objects p c o jo j api nil source target around_ids between_ids fuel s
        ≡ none
  unfolding list_edges_between_objects
  list_edges_never_ends api nil source target around_ids between_ids fuel s bypassed next =
      let request =
        api.get_page (lit "/authz/objects/" ++ source ++ lit "/edges")
          ((lit "target_object_id", target) ∷ []) in
      rw bypassed (rw (pages_again request fuel [] s next) refl)
