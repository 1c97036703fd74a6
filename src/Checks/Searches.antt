-- ===== src/Checks/Searches.antt =====
-- The searches and lists of the authz client at a concrete setup, over the cache of the tests.
use authzsdk.Prelude.{
  ◌≡◌, refl, subst, none, some, [], ◌∷◌, List, Option, Bool, true, false, Text, lit, text_eq,
  ne_of_text_eq, arith, if◌then◌else◌, All,
}
use authzsdk.Pagination.Options.{initial}
use authzsdk.Pagination.Pager.{advance_cursor}
use authzsdk.Pagination.Query.{query}
use authzsdk.Authz.Client.Lists.{list_pages}
use authzsdk.Authz.Listings.{list_pages-HasPages}
use authzsdk.Cache.Provider.{in_memory}
use authzsdk.Authz.KeyNames.{get_key_name}
use authzsdk.Authz.Models.{Edge}
use authzsdk.Authz.Client.{got, Sent, answer, refused, broken, Page, Api, Options}
use authzsdk.Authz.Client.Types.{ttl_of, new_base_with_id}
use authzsdk.Authz.Client.Edges.{
  FindIds, load_edge, load_between, load_around, find_edge, list_edges_between_objects, first_to,
}
use authzsdk.Authz.Searches.{Joins, find_edge-Joins}
use authzsdk.Authz.Endings.{list_edges_never_ends}
use authzsdk.Cache.Manager.Loads.{get_item_from_cache, get_items_array_from_cache}
use authzsdk.Cache.InMemory.Values.{get_value}
use authzsdk.Checks.Table.{Table, table, get}
use authzsdk.Checks.Methods.{ids}
use authzsdk.Checks.Clients.{setup, options, forgetful, one_page, serving}

abbrev edge : Text → Text → Edge
edge source target = record {
  base = new_base_with_id (lit "e");
  edge_type_id = lit "t";
  source_object_id = source;
  target_object_id = target;
}

abbrev find_ids : FindIds
find_ids = record {
  edge_ids = λ n. lit "1";
  between_ids = λ n. lit "2";
  around_ids = λ n. lit "3";
  lock_ids = λ n. lit "4";
  save_ids = λ e. ids.save_ids;
}

-- Among the edges at an object, one of another object counts as an edge from the object to itself.
other_source :
    first_to (lit "a") (lit "t") (edge (lit "b") (lit "a") ∷ []) ≡ some (edge (lit "b") (lit "a"))
unfolding first_to text_eq
other_source = refl

-- A bypassing client, and a server that has two pages of edges: the first has a next one, and a query with
-- a cursor gets the last.
abbrev bypassing : Options
bypassing = record options { bypass_cache = true }

abbrev edge_page : List (Text × Text) → Page Edge
edge_page [] = record { data_ = []; response = one_page true }
edge_page (pair ∷ []) = record { data_ = []; response = one_page true }
edge_page (pair ∷ pair' ∷ pairs) = record {
  data_ = edge (lit "a") (lit "b") ∷ [];
  response = one_page false;
}

abbrev two_pages_of_edges : Api Table Edge
two_pages_of_edges = record (serving (edge (lit "a") (lit "b")) [] true) {
  get_page = λ path query s. (s, answer (edge_page query));
}

list_edges_never_ends_example :
    list_edges_between_objects
      (in_memory table 5)
      setup
      bypassing
      forgetful
      forgetful
      two_pages_of_edges
      (lit "0")
      (lit "a")
      (lit "b")
      (λ n. lit "1")
      (λ n. lit "2")
      9
      []
    ≡ none
list_edges_never_ends_example =
    list_edges_never_ends (in_memory table 5) setup bypassing forgetful forgetful two_pages_of_edges
      (lit "0") (lit "a") (lit "b") (λ n. lit "1") (λ n. lit "2") 9 [] refl
      (λ u. (record { data_ = []; response = one_page true }, refl, refl))

no_edge :
    (load_edge
      (in_memory table 5)
      setup
      options
      forgetful
      forgetful
      (lit "a")
      (lit "b")
      (lit "t")
      find_ids
      []).1
    ≡ none
unfolding get get_key_name ttl_of text_eq get_item_from_cache get_items_array_from_cache get_value
no_edge = refl

none_between :
    (load_between
      (in_memory table 5)
      setup
      options
      forgetful
      forgetful
      (lit "a")
      (lit "b")
      (lit "t")
      find_ids
      []).1.item
    ≡ none
unfolding get get_key_name ttl_of text_eq get_item_from_cache get_items_array_from_cache get_value
none_between = refl

none_around :
    (load_around
      (in_memory table 5)
      setup
      options
      forgetful
      forgetful
      (lit "a")
      (lit "b")
      (lit "t")
      find_ids
      []).1.item
    ≡ none
unfolding get get_key_name ttl_of text_eq get_item_from_cache get_items_array_from_cache get_value
none_around = refl

none_some : {A : Type 0} {P : Type 0} {x : Option A} {a : A} → x ≡ none → x ≡ some a → P
none_some e h = absurd (cc (e, h))

All-Joins :
    {page : Page Edge}
    → answer (record { data_ = edge (lit "a") (lit "b") ∷ []; response = one_page false })
      ≡ answer page
    → All (Joins (lit "a") (lit "b") (lit "t")) page.data_
All-Joins h =
    subst
      (λ (r : Sent (Page Edge)). elim r [
        | answer page ↦ All (Joins (lit "a") (lit "b") (lit "t")) page.data_
        | refused status body ↦ Unit
        | broken ↦ Unit
      ])
      h (((refl, refl), refl), tt)

find_edge-Joins_example : Joins (lit "a") (lit "b") (lit "t") (edge (lit "a") (lit "b"))
unfolding find_edge text_eq get_item_from_cache ttl_of get_value get_key_name get
    get_items_array_from_cache
find_edge-Joins_example =
    find_edge-Joins (in_memory table 5) setup options forgetful forgetful
      (serving (edge (lit "a") (lit "b")) (edge (lit "a") (lit "b") ∷ []) false) (lit "a") (lit "b")
      (lit "t") find_ids [] (edge (lit "a") (lit "b")) (ne_of_text_eq (lit "a") (lit "b") refl)
      (λ a h. none_some no_edge h) (λ es h. none_some none_between h)
      (λ es h. none_some none_around h) (λ u page h. All-Joins h) refl

abbrev first_page : Page Text
first_page = record {
  data_ = lit "x" ∷ [];
  response = record { has_next = true; next = lit "b"; has_prev = false; prev = [] };
}

abbrev last_page : Page Text
last_page = record { data_ = lit "y" ∷ []; response = one_page false }

abbrev starts_at_b : List (Text × Text) → Bool
starts_at_b [] = false
starts_at_b (pair ∷ pairs) = text_eq pair.1 (lit "b")

abbrev two_pages : List (Text × Text) → Table → Table × Sent (Page Text)
two_pages pairs s = (s, answer (if starts_at_b pairs then last_page else first_page))

list_pages-HasPages_example :
    (u : Table) × (list_pages two_pages (λ items s. s) 2 initial [] []
      ≡ some (u, got (lit "x" ∷ lit "y" ∷ [])))
unfolding text_eq query advance_cursor
list_pages-HasPages_example =
    list_pages-HasPages two_pages (λ items s. s) (first_page ∷ last_page ∷ []) 2 initial [] []
      (((λ s. refl), refl), ((λ s. refl), refl)) (omega arith)
