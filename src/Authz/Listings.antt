-- ===== src/Authz/Listings.antt =====
-- The loop of the list operations of authz/client.go reads all pages.
use authzsdk.Prelude.{
  ℕ, zero, suc, ◌≡◌, ◌≤◌, ap, sym, ◌∙◌, some, List, [], ◌∷◌, ◌++◌, true, false, Text, length, arith,
  append-nil, append_assoc,
}
use authzsdk.Pagination.Options.{Paginator}
use authzsdk.Pagination.Pager.{advance_cursor}
use authzsdk.Pagination.Query.{query}
use authzsdk.Authz.Client.{Sent, answer, got, Page}
use authzsdk.Authz.Client.Lists.{list_pages}

module _ {S A : Type 0} (request : List (Text × Text) → S → S × Sent (Page A)) where
  -- A server that has these pages, one behind the other: it answers the query of each with the page,
  -- whose cursors lead to the next one, and from the last one nowhere.
  abbrev pub HasPages : Paginator → List (Page A) → Type 0
  HasPages pager [] = ⊥
  HasPages pager (page ∷ []) =
      ((s : S) → (request (query pager) s).1 ≡ answer page)
      × ((advance_cursor page.response pager).0 ≡ false)
  HasPages pager (page ∷ next ∷ rest) =
      (((s : S) → (request (query pager) s).1 ≡ answer page)
        × ((advance_cursor page.response pager).0 ≡ true))
      × HasPages (advance_cursor page.response pager).1 (next ∷ rest)

  abbrev pub all_items : List (Page A) → List A
  all_items [] = []
  all_items (page ∷ rest) = page.data_ ++ all_items rest

  -- With at least as much fuel as the server has pages, the loop ends, without an error, with the items
  -- of all pages in their order, whatever the saves do to the cache.
  pub list_pages-HasPages :
      (save : List A → S → S) (pages : List (Page A)) (fuel : ℕ) (pager : Paginator)
      (items : List A) (s : S)
      → HasPages pager pages
      → length pages ≤ fuel
      → (u : S) × (list_pages request save fuel pager items s
          ≡ some (u, got (items ++ all_items pages)))
  unfolding list_pages
  list_pages-HasPages save [] fuel pager items s h l = absurd h
  list_pages-HasPages save (page ∷ rest) zero pager items s h l = absurd (omega (arith, l))
  list_pages-HasPages save (page ∷ []) (suc fuel) pager items s (answers, last) l = (
    save page.data_ (request (query pager) s).0,
    rw (answers s, list_pages)
        (rw last (
          ap (λ z. some (save page.data_ (request (query pager) s).0, got (items ++ z)))
            (sym (append-nil page.data_)))),
  )
  list_pages-HasPages save (page ∷ next ∷ rest) (suc fuel) pager items s ((answers, more), h) l =
      let v = save page.data_ (request (query pager) s).0 in
      let (u, e) =
        list_pages-HasPages save (next ∷ rest) fuel (advance_cursor page.response pager).1
          (items ++ page.data_) v h (omega (arith, l)) in
      (
        u,
        rw (answers s, list_pages)
            (rw more (
              e
              ∙ ap (λ z. some (u, got z))
                  (append_assoc items page.data_ (all_items (next ∷ rest))))),
      )
