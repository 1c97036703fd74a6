-- ===== src/Pagination/Requests.antt =====
-- What a request for a page carries over to the paginator of the server.
use authzsdk.Prelude.{
  ℕ, zero, suc, ◌≡◌, refl, ap, ◌≤◌, ◌⊎◌, inl, inr, none, some, List, [], ◌∷◌, ◌++◌, text_eq, ℤ, pos,
  if◌then◌else◌, itoa, atoi-itoa, arith, Bool-cases,
}
use authzsdk.Pagination.Options.{
  Opt, ending_before, filter_by, limit_to, request_version, sort_key_by, sort_order_by,
  starting_after, Paginator, is_empty,
}
use authzsdk.Pagination.Pager.{apply_options, is_forward}
use authzsdk.Pagination.Query.{
  value_of, QueryParams, int_option, int_option_of, query_options, new_paginator_from_query,
  params_of, new_paginator_from_request, query,
}
use authzsdk.Pagination.Accepted.{IsAccepted}

-- The settings of a paginator that a request carries, as options.
abbrev pub requested : Paginator → List Opt
requested p =
    (if is_forward p then starting_after p.cursor else ending_before p.cursor)
      ∷ limit_to p.limit
      ∷ (if is_empty p.filter then [] else filter_by p.filter ∷ [])
    ++ (sort_key_by p.sort_key ∷ sort_order_by p.sort_order ∷ request_version p.version ∷ [])

abbrev with_params : Paginator → QueryParams
with_params p = record {
  starting_after_param = if is_forward p then some p.cursor else none;
  ending_before_param = if is_forward p then none else some p.cursor;
  limit_param = some (itoa p.limit);
  filter_param = if is_empty p.filter then none else some p.filter;
  sort_key_param = some p.sort_key;
  sort_order_param = some p.sort_order;
  version_param = some (itoa p.version);
}

params_of-query :
    (p : Paginator) (n : ℕ) → p.limit ≡ pos (suc n) → params_of (value_of (query p)) ≡ with_params p
unfolding params_of query text_eq
params_of-query p n e = rw e (elim (Bool-cases (is_forward p)) [
  | inl f ↦ rw f (elim (Bool-cases (is_empty p.filter)) [ inl g ↦ rw g refl | inr g ↦ rw g refl ])
  | inr f ↦ rw f (elim (Bool-cases (is_empty p.filter)) [ inl g ↦ rw g refl | inr g ↦ rw g refl ])
])

version_read :
    (v : ℤ)
    → (v ≡ pos 2) ⊎ (v ≡ pos 3)
    → int_option_of request_version (some (itoa v)) ≡ some (request_version v ∷ [])
version_read v (inl e) = rw e refl
version_read v (inr e) = rw e refl

limit_read :
    (v : ℤ) (n : ℕ)
    → v ≡ pos n
    → n ≤ 1500
    → int_option_of limit_to (some (itoa v)) ≡ some (limit_to v ∷ [])
limit_read v n e l = rw e (ap (int_option limit_to) (atoi-itoa n (omega arith)))

positive : (v : ℤ) (n : ℕ) → v ≡ pos n → 1 ≤ n → (m : ℕ) × (v ≡ pos (suc m))
positive v zero e l = absurd (omega arith)
positive v (suc m) e l = (m, e)

query_options-requested :
    (p : Paginator)
    → query_options (with_params p) (limit_to p.limit ∷ []) (request_version p.version ∷ [])
      ≡ requested p
unfolding query_options
query_options-requested p = elim (Bool-cases (is_forward p)) [
  | inl f ↦ rw f (elim (Bool-cases (is_empty p.filter)) [ inl g ↦ rw g refl | inr g ↦ rw g refl ])
  | inr f ↦ rw f (elim (Bool-cases (is_empty p.filter)) [ inl g ↦ rw g refl | inr g ↦ rw g refl ])
]

-- The request that an accepted paginator writes is read back: the server applies, behind its default
-- options, the paginator's direction, cursor, limit, filter, sort key, sort order and version.
pub new_paginator_from_request-query :
    (p : Paginator)
    → IsAccepted p
    → (defaults : List Opt)
    → new_paginator_from_request (query p) defaults ≡ apply_options (defaults ++ requested p)
unfolding new_paginator_from_request new_paginator_from_query
new_paginator_from_request-query p a defaults =
    let (n, (e, (l, u))) = a.limit_bound in
    let (m, e') = positive p.limit n e l in
    rw (params_of-query p m e') (
      rw (limit_read p.limit n e u, new_paginator_from_query)
        (rw (version_read p.version a.known_version)
          (ap (λ os. apply_options (defaults ++ os)) (query_options-requested p))))
