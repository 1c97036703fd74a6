-- ===== src/Pagination/Query.antt =====
-- infra/pagination/query.go and the Query method of pager.go: paginators from and to the parameters of
-- a request. url.Values is the list of the pairs that were added, the first at a key is read.
use authzsdk.Prelude.{
  suc, Option, none, some, List, [], ◌∷◌, ◌++◌, Text, lit, text_eq, ℤ, pos, if◌then◌else◌, atoi,
  itoa,
}
use authzsdk.Pagination.Types.{limit_argument, version_argument}
use authzsdk.Pagination.Options.{
  Opt, ending_before, filter_by, limit_to, request_version, sort_key_by, sort_order_by,
  starting_after, Paginator, is_empty,
}
use authzsdk.Pagination.Pager.{Result, refused, apply_options, is_forward}

abbrev pub Values : Type 0
Values = List (Text × Text)

-- Values.Get and Values.Has at once: the first value of a key, if it has one.
abbrev pub value_of : Values → Text → Option Text
value_of [] k = none
value_of ((k', v) ∷ vs) k = let rest = value_of vs k in if text_eq k k' then some v else rest

pub record QueryParams : Type 0 where
  pub starting_after_param : Option Text
  pub ending_before_param : Option Text
  pub limit_param : Option Text
  pub filter_param : Option Text
  pub sort_key_param : Option Text
  pub sort_order_param : Option Text
  pub version_param : Option Text

abbrev pub option_of : (Text → Opt) → Option Text → List Opt
option_of f none = []
option_of f (some s) = f s ∷ []

abbrev pub int_option : (ℤ → Opt) → Option ℤ → Option (List Opt)
int_option f none = none
int_option f (some n) = some (f n ∷ [])

abbrev pub int_option_of : (ℤ → Opt) → Option Text → Option (List Opt)
int_option_of f none = some []
int_option_of f (some s) = int_option f (atoi s)

-- The options of a query, in the order of NewPaginatorFromQuery.
unfoldable pub query_options : QueryParams → List Opt → List Opt → List Opt
query_options q limits versions =
    option_of starting_after q.starting_after_param
    ++ option_of ending_before q.ending_before_param
    ++ limits
    ++ option_of filter_by q.filter_param
    ++ option_of sort_key_by q.sort_key_param
    ++ option_of sort_order_by q.sort_order_param
    ++ versions

unfoldable pub new_paginator_from_query : QueryParams → List Opt → Result
unfolding query_options
new_paginator_from_query q defaults = elim (int_option_of limit_to q.limit_param) [
  | none ↦ refused limit_argument
  | some limits ↦ elim (int_option_of request_version q.version_param) [
    | none ↦ refused version_argument
    | some versions ↦ apply_options (defaults ++ query_options q limits versions)
  ]
]

unfoldable pub params_of : (Text → Option Text) → QueryParams
params_of get = record {
  starting_after_param = get (lit "starting_after");
  ending_before_param = get (lit "ending_before");
  limit_param = get (lit "limit");
  filter_param = get (lit "filter");
  sort_key_param = get (lit "sort_key");
  sort_order_param = get (lit "sort_order");
  version_param = get (lit "version");
}

unfoldable pub new_paginator_from_request : Values → List Opt → Result
unfolding params_of new_paginator_from_query
new_paginator_from_request vs = new_paginator_from_query (params_of (value_of vs))

abbrev pub not_null : Option Text → Option Text
not_null none = none
not_null (some s) = if text_eq s (lit "null") then none else some s

unfoldable pub query_params_from_request : Values → QueryParams
unfolding params_of
query_params_from_request vs = params_of (λ k. not_null (value_of vs k))

abbrev pub limit_values : ℤ → Values
limit_values (pos (suc n)) = (lit "limit", itoa (pos (suc n))) ∷ []
limit_values _ = []

-- Paginator.Query
unfoldable pub query : Paginator → Values
query p =
    (if is_forward p then lit "starting_after" else lit "ending_before", p.cursor)
    ∷ (limit_values p.limit
        ++ (if is_empty p.filter then [] else (lit "filter", p.filter) ∷ [])
        ++ ((lit "sort_key", p.sort_key)
            ∷ (lit "sort_order", p.sort_order)
            ∷ (lit "version", itoa p.version)
            ∷ []))
