-- ===== src/Checks/Filters.antt =====
-- The theorems on filters, paginators and key names at concrete inputs, and tests.
use authzsdk.Prelude.{
  ◌↔◌, ne_of_text_eq, none, false, ◌≡◌, refl, subst, split, split_n, cut, List, contains,
  has_prefix, trim_prefix, trim_suffix, Bool, true, false, [], ◌∷◌, ◌++◌, Text, lit, pos, text_eq,
}
use authzsdk.Pagination.Filter.Parser.{ok, err, unbalanced, parse_char, create_filter_query}
use authzsdk.Pagination.Filter.Nodes.{add_child, update, is_root, is_nested, find_ancestor}
use authzsdk.Pagination.Filter.Operators.{is_leaf_operator}
use authzsdk.Pagination.Types.{validate_order, validate_version}
use authzsdk.Pagination.Filter.Leaf.{find_leaf, parse_key, byte_length}
use authzsdk.Pagination.Filter.Total.{Finished, create_filter_query-Finished}
use authzsdk.Pagination.Options.{
  Opt, limit_to, starting_after, Paginator, initial, apply, run_option,
}
use authzsdk.Pagination.Pager.{
  pager, apply_options, validate, validate_cursor, classify_keys, with_defaults, with_filter_query,
  checked,
}
use authzsdk.Pagination.Query.{query, new_paginator_from_request}
use authzsdk.Pagination.Accepted.{IsAccepted, IsAcceptedResult, apply_options-AcceptedResult}
use authzsdk.Pagination.Requests.{new_paginator_from_request-query, requested}
use authzsdk.Authz.KeyNames.{
  get_key_name, object_key_id, object_type_key_id, object_type_name_key_id,
}
use authzsdk.Pagination.Cursors.{ArePairs, validate_cursor-ArePairs}
use authzsdk.Pagination.Types.{cursor_begin, cursor_end}
use authzsdk.Authz.Apart.{get_key_name-injective}

abbrev accepts : Text → Bool
accepts s = elim (create_filter_query s) [ ok q ↦ true | _ ↦ false ]

abbrev leaf : Text
leaf = lit "('id',EQ,'v')"

create_filter_query-Finished_example : Finished (create_filter_query leaf)
create_filter_query-Finished_example = create_filter_query-Finished leaf

-- A parenthesis that is never closed is accepted.
lone_parenthesis : accepts (lit "(") ≡ true
unfolding create_filter_query parse_char add_child update is_root
lone_parenthesis = refl

-- A parenthesis too many behind two leaves without an operator is accepted.
parenthesis_too_many : accepts (lit "('a',EQ,'b')('c',EQ,'d'))") ≡ true
unfolding create_filter_query parse_char add_child update is_root find_ancestor find_leaf parse_key
    is_leaf_operator trim_prefix trim_suffix has_prefix text_eq is_nested byte_length
parenthesis_too_many = refl

-- A value that is not ASCII is refused: the index counts runes, the leaf's length bytes.
two_byte_value : create_filter_query (lit "('id',EQ,'" ++ (233 ∷ lit "')")) ≡ err unbalanced
unfolding create_filter_query parse_char add_child update is_root find_ancestor find_leaf parse_key
    is_leaf_operator trim_prefix trim_suffix has_prefix text_eq is_nested byte_length
two_byte_value = refl

-- The name of an object type and the ID of another one can have one key.
shared_key :
    get_key_name (lit "t") object_type_name_key_id (lit "x" ∷ [])
    ≡ get_key_name (lit "t") object_type_key_id (lit "x" ∷ [])
unfolding get_key_name
shared_key = refl

apart_from_begin : text_eq (lit "a:1,b:2") cursor_begin ≡ false
unfolding text_eq
apart_from_begin = refl

apart_from_end : text_eq (lit "a:1,b:2") cursor_end ≡ false
unfolding text_eq
apart_from_end = refl

-- A paginator as the client makes one.
abbrev options : List Opt
options = limit_to (pos 20) ∷ starting_after (lit "id:1") ∷ []

abbrev sample : Paginator
sample = record initial {
  cursor = lit "id:1";
  limit = pos 20;
  limit_multiplier = pos 1;
  forward_direction_set = true;
  final_sort_key_valid = true;
  options = options;
}

sample_returned : apply_options options ≡ pager sample
unfolding apply_options validate validate_order validate_version validate_cursor apply run_option
    classify_keys text_eq contains has_prefix with_defaults with_filter_query checked split split_n
    cut
sample_returned = refl

sample-IsAccepted : IsAccepted sample
sample-IsAccepted =
    (subst IsAcceptedResult sample_returned (apply_options-AcceptedResult options)).0

apply_options-AcceptedResult_example : IsAcceptedResult (apply_options options)
apply_options-AcceptedResult_example = apply_options-AcceptedResult options

new_paginator_from_request-query_example :
    new_paginator_from_request (query sample) options ≡ apply_options (options ++ requested sample)
new_paginator_from_request-query_example =
    new_paginator_from_request-query sample sample-IsAccepted options

get_key_name-injective_example : (object_key_id ≡ object_key_id) × (lit "x" ≡ lit "x")
get_key_name-injective_example =
    get_key_name-injective (lit "t") (lit "x") (lit "x") object_key_id object_key_id refl refl refl

validate_cursor-ArePairs_example :
    (validate_cursor sample (lit "a:1,b:2") ≡ none)
    ↔ ArePairs none (split (lit "a:1,b:2") (lit ","))
validate_cursor-ArePairs_example =
    validate_cursor-ArePairs sample (lit "a:1,b:2") (ne_of_text_eq _ _ apart_from_begin)
      (ne_of_text_eq _ _ apart_from_end)
