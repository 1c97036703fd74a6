-- ===== src/Pagination/Pager.antt =====
-- infra/pagination/pager.go: the paginator that options make, and its validation.
use authzsdk.Prelude.{
  first_error, refuse_if, zero, Option, none, some, List, [], ◌∷◌, Bool, true, false, not, ◌&&◌,
  ◌||◌, Text, lit, text_eq, contains, ℤ, pos, negsuc, if◌then◌else◌, ltb, split, is_some,
}
use authzsdk.Pagination.Types.{
  Cursor, cursor_begin, cursor_end, direction_forward, direction_backward, PagerError,
  validate_order, validate_version, default_limit, default_limit_multiplier, max_limit,
  ResponseFields, limit_not_positive, limit_too_large, both_directions, no_sort_key,
  unsupported_sort_keys, duplicate_sort_keys, invalid_final_sort_key, filter_not_parsed,
  filter_query_unexpected, filter_invalid, begin_backwards, end_forwards, invalid_pair,
  duplicate_key,
}
use authzsdk.Pagination.Filter.Parser.{create_filter_query, ok, err, panic, timeout}
use authzsdk.Pagination.Options.{Opt, Paginator, apply_each, initial, is_empty}

abbrev pub is_unsupported : Option (Text → Bool) → Text → Bool
is_unsupported none key = false
is_unsupported (some is_supported) key = not (is_supported key)

abbrev pub is_final : Option (Text → Bool) → Text → Bool → Bool
is_final none key before = before
is_final (some is_valid) key before = is_valid key

-- The loop of classifySortKeys; `seen` holds the keys before.
unfoldable pub classify_keys : List Text → List Text → Paginator → Paginator
classify_keys seen [] p = p
classify_keys seen (key ∷ keys) p =
    let duplicate = classify_keys (key ∷ seen) keys (record p { any_duplicate_sort_keys = true }) in
    let fresh = classify_keys (key ∷ seen) keys (record p {
      any_unsupported_sort_keys =
          p.any_unsupported_sort_keys || is_unsupported p.is_key_supported key;
      final_sort_key_valid = is_final p.is_valid_final_sort_key key p.final_sort_key_valid;
    }) in
    if contains seen key then duplicate else fresh

unfoldable pub classify_sort_keys : Paginator → Paginator
unfolding classify_keys
classify_sort_keys p =
    classify_keys [] (split p.sort_key (lit ",")) (record p { final_sort_key_valid = true })

abbrev pub is_forward : Paginator → Bool
is_forward p = elim p.direction [ direction_forward ↦ true | direction_backward ↦ false ]

unfoldable pub advance_cursor : ResponseFields → Paginator → Bool × Paginator
advance_cursor rf p =
    if is_forward p
    then (if rf.has_next then (true, record p { cursor = rf.next }) else (false, p))
    else if rf.has_prev
    then (true, record p { cursor = rf.prev })
    else (false, p)

abbrev pub checked_by : Option (Text → Text → Option PagerError) → Text → Text → Option PagerError
checked_by none key value = none
checked_by (some f) key value = f key value

-- The loop of ValidateCursor; `seen` holds the keys before.
unfoldable pub validate_pair :
    Option (Text → Text → Option PagerError) → List Text → List Text → Option PagerError
validate_pair f seen (key ∷ value ∷ []) =
    if contains seen key then some duplicate_key else checked_by f key value
validate_pair f seen _ = some invalid_pair

abbrev pub first_of : List Text → Text
first_of [] = []
first_of (x ∷ xs) = x

unfoldable pub validate_pairs :
    Option (Text → Text → Option PagerError) → List Text → List Text → Option PagerError
unfolding validate_pair
validate_pairs f seen [] = none
validate_pairs f seen (key_value ∷ rest) =
    let pair = split key_value (lit ":") in
    first_error (validate_pair f seen pair ∷ validate_pairs f (first_of pair ∷ seen) rest ∷ [])

unfoldable pub validate_cursor : Paginator → Cursor → Option PagerError
unfolding validate_pairs
validate_cursor p c =
    if text_eq c cursor_begin
    then refuse_if (not (is_forward p)) begin_backwards
    else if text_eq c cursor_end
    then refuse_if (is_forward p) end_forwards
    else validate_pairs p.key_value_validator [] (split c (lit ","))

abbrev pub validate_limit : ℤ → Option PagerError
validate_limit (pos n) =
    first_error
      (refuse_if (ltb n 1) limit_not_positive ∷ refuse_if (ltb max_limit n) limit_too_large ∷ [])
validate_limit (negsuc n) = some limit_not_positive

abbrev pub same : Bool → Bool → Bool
same true b = b
same false b = not b

-- The check of the filter against the parsed filter.
abbrev pub validate_filter : Paginator → Option PagerError
validate_filter p =
    if is_empty p.filter
    then refuse_if (is_some p.filter_query) filter_query_unexpected
    else refuse_if (not (is_some p.filter_query)) filter_not_parsed

abbrev pub supported_keys_error : Option (Option PagerError) → Option PagerError
supported_keys_error none = none
supported_keys_error (some e) = e

-- The checks of Paginator.Validate, in order.
unfoldable pub checks : Paginator → List (Option PagerError)
unfolding validate_order validate_version validate_cursor
checks p =
    validate_version p.version
    ∷ validate_limit p.limit
    ∷ validate_order p.sort_order
    ∷ refuse_if (same p.forward_direction_set p.backward_direction_set) both_directions
    ∷ refuse_if (is_empty p.sort_key) no_sort_key
    ∷ refuse_if p.any_unsupported_sort_keys unsupported_sort_keys
    ∷ refuse_if p.any_duplicate_sort_keys duplicate_sort_keys
    ∷ refuse_if (not p.final_sort_key_valid) invalid_final_sort_key
    ∷ validate_filter p
    ∷ supported_keys_error p.supported_keys_validator
    ∷ validate_cursor p p.cursor
    ∷ []

unfoldable pub validate : Paginator → Option PagerError
unfolding checks
validate p = first_error (checks p)

-- What `ApplyOptions` returns; `stuck` is a filter parser that does not return.
pub data Result : Type 0 where
  pager : Paginator → Result
  refused : PagerError → Result
  stuck : Result

abbrev pub pager_or_none : Result → Option Paginator
pager_or_none (pager p) = some p
pager_or_none (refused e) = none
pager_or_none stuck = none

abbrev pub or_default : ℤ → ℤ → ℤ
or_default (pos zero) default = default
or_default n default = n

-- The defaults that `ApplyOptions` sets behind the options.
unfoldable pub with_defaults : Paginator → Paginator
with_defaults p =
    let limit = or_default p.limit default_limit in
    let multiplier = or_default p.limit_multiplier default_limit_multiplier in
    let unset = not p.backward_direction_set && not p.forward_direction_set in
    let forward = p.forward_direction_set || unset in
    record p {
      limit = limit;
      limit_multiplier = multiplier;
      forward_direction_set = forward;
      cursor = if unset then cursor_begin else p.cursor;
      direction = if forward then direction_forward else direction_backward;
    }

-- The parse of the filter, where there is one.
unfoldable pub with_filter_query : Paginator → Result
with_filter_query p = if is_empty p.filter then pager p else elim (create_filter_query p.filter) [
  | ok q ↦ pager (record p { filter_query = some q })
  | err e ↦ refused filter_invalid
  | panic ↦ stuck
  | timeout ↦ stuck
]

unfoldable pub checked : Result → Result
unfolding validate
checked (pager p) = elim (validate p) [ none ↦ pager p | some e ↦ refused e ]
checked (refused e) = refused e
checked stuck = stuck

unfoldable pub apply_options : List Opt → Result
unfolding apply_each with_defaults classify_sort_keys with_filter_query checked
apply_options os =
    checked (with_filter_query (classify_sort_keys (with_defaults (apply_each os initial))))
