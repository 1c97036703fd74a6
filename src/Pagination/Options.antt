-- ===== src/Pagination/Options.antt =====
-- infra/pagination/options.go: the options of a request; the fields of the paginator they set.
use authzsdk.Prelude.{
  ℕ, Option, none, List, [], ◌∷◌, ◌++◌, Bool, true, false, Text, lit, ℤ, pos, if◌then◌else◌,
}
use authzsdk.Pagination.Types.{
  Cursor, cursor_begin, Direction, direction_forward, direction_backward, PagerError, KeyTypes,
  Order, order_ascending, version3,
}
use authzsdk.Pagination.Filter.Nodes.{Heap}

-- The options, each with what its closure holds.
pub data Opt : Type 0 where
  ending_before : Cursor → Opt
  filter_by : Text → Opt
  limit_to : ℤ → Opt
  request_version : ℤ → Opt
  sort_key_by : Text → Opt
  sort_order_by : Order → Opt
  starting_after : Cursor → Opt

pub record Paginator : Type 0 where
  pub cursor : Cursor
  pub direction : Direction
  pub backward_direction_set : Bool
  pub forward_direction_set : Bool
  pub has_result_type : Bool
  pub limit : ℤ
  pub limit_multiplier : ℤ
  pub sort_key : Text
  pub sort_order : Order
  pub filter : Text
  pub filter_query : Option (Heap × ℕ)
  pub supported_keys : KeyTypes
  pub any_duplicate_sort_keys : Bool
  pub any_unsupported_sort_keys : Bool
  pub final_sort_key_valid : Bool
  pub options : List Opt
  pub version : ℤ
  pub is_key_supported : Option (Text → Bool)
  pub is_nullable_key : Text → Bool
  pub is_valid_final_sort_key : Option (Text → Bool)
  pub key_value_validator : Option (Text → Text → Option PagerError)
  pub supported_keys_validator : Option (Option PagerError)

-- The paginator of `ApplyOptions` before any option, with Go's zero values.
abbrev pub initial : Paginator
initial = record {
  cursor = cursor_begin;
  direction = direction_forward;
  backward_direction_set = false;
  forward_direction_set = false;
  has_result_type = false;
  limit = pos 0;
  limit_multiplier = pos 0;
  sort_key = lit "id";
  sort_order = order_ascending;
  filter = [];
  filter_query = none;
  supported_keys = [];
  any_duplicate_sort_keys = false;
  any_unsupported_sort_keys = false;
  final_sort_key_valid = false;
  options = [];
  version = version3;
  is_key_supported = none;
  is_nullable_key = λ _. false;
  is_valid_final_sort_key = none;
  key_value_validator = none;
  supported_keys_validator = none;
}

abbrev pub is_empty : Text → Bool
is_empty [] = true
is_empty (c ∷ s) = false

-- The filter that the closure of `Filter` makes of the paginator's, and keeps.
abbrev pub combined : Text → Text → Text
combined old filter =
    if is_empty old then filter else lit "(" ++ old ++ lit ",AND," ++ filter ++ lit ")"

-- The call of an option's function, which returns the option as the call leaves it.
unfoldable pub run_option : Opt → Paginator → Paginator × Opt
run_option (ending_before c) p = (
  record p { cursor = c; direction = direction_backward; backward_direction_set = true },
  ending_before c,
)
run_option (filter_by f) p =
    if is_empty f
    then (p, filter_by f)
    else (record p { filter = combined p.filter f }, filter_by (combined p.filter f))
run_option (limit_to n) p = (record p { limit = n }, limit_to n)
run_option (request_version v) p = (record p { version = v }, request_version v)
run_option (sort_key_by k) p = (record p { sort_key = k }, sort_key_by k)
run_option (sort_order_by o) p = (record p { sort_order = o }, sort_order_by o)
run_option (starting_after c) p = (
  record p { cursor = c; direction = direction_forward; forward_direction_set = true },
  starting_after c,
)

-- optFunc.apply
unfoldable pub apply : Opt → Paginator → Paginator
unfolding run_option
apply o p = let (p', o') = run_option o p in record p' { options = p'.options ++ (o' ∷ []) }

unfoldable pub apply_each : List Opt → Paginator → Paginator
unfolding apply
apply_each [] p = p
apply_each (o ∷ os) p = apply_each os (apply o p)
