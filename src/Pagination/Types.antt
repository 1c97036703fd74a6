-- ===== src/Pagination/Types.antt =====
-- infra/pagination/types.go, const.go, response.go: the types of a request, and their validation.
-- An error is `some`, nil is `none`; an int is a ℤ.
use authzsdk.Prelude.{
  ℕ, Option, none, some, List, [], ◌∷◌, Bool, ◌||◌, Text, lit, text_eq, contains, ℤ, pos, negsuc,
  if◌then◌else◌, ◌==◌,
}

abbrev pub Cursor : Type 0
Cursor = Text

abbrev pub cursor_begin : Cursor
cursor_begin = []

abbrev pub cursor_end : Cursor
cursor_end = lit "end"

pub data Direction : Type 0 where
  direction_forward direction_backward : Direction

-- Every error of this package, by its place; `rejected` is one of a function that a paginator holds.
pub data PagerError : Type 0 where
  key_type_unsupported no_pagination_key invalid_key_type : Text → PagerError
  order_unrecognized : PagerError
  version_no_longer_supported version_unsupported : PagerError
  limit_not_positive limit_too_large : PagerError
  both_directions no_sort_key unsupported_sort_keys duplicate_sort_keys invalid_final_sort_key :
      PagerError
  filter_not_parsed filter_query_unexpected filter_invalid : PagerError
  begin_backwards end_forwards invalid_pair duplicate_key : PagerError
  limit_argument version_argument : PagerError
  rejected : Text → PagerError

abbrev pub KeyType : Type 0
KeyType = Text

abbrev pub key_types : List KeyType
key_types =
    lit "Array"
    ∷ lit "Boolean"
    ∷ lit "Int"
    ∷ lit "NullableBoolean"
    ∷ lit "NullableInt"
    ∷ lit "NullableString"
    ∷ lit "NullableTimestamp"
    ∷ lit "NullableUUID"
    ∷ lit "String"
    ∷ lit "Timestamp"
    ∷ lit "UUIDArray"
    ∷ lit "UUID"
    ∷ []

-- KeyType.Validate
unfoldable pub validate_key_type : KeyType → Option PagerError
validate_key_type kt = if contains key_types kt then none else some (key_type_unsupported kt)

-- A map from keys to their types.
abbrev pub KeyTypes : Type 0
KeyTypes = List (Text × KeyType)

unfoldable pub validate_each : KeyTypes → Option PagerError
unfolding validate_key_type
validate_each [] = none
validate_each ((k, t) ∷ kts) = elim (validate_key_type t) [
  | none ↦ validate_each kts
  | some e ↦ some (invalid_key_type k)
]

-- KeyTypes.Validate
unfoldable pub validate_key_types : KeyTypes → Option PagerError
unfolding validate_each
validate_key_types [] = some (no_pagination_key [])
validate_key_types (kt ∷ kts) = validate_each (kt ∷ kts)

abbrev pub Order : Type 0
Order = Text

abbrev pub order_ascending : Order
order_ascending = lit "ascending"

abbrev pub order_descending : Order
order_descending = lit "descending"

-- Order.Validate
unfoldable pub validate_order : Order → Option PagerError
validate_order o =
    if text_eq o order_ascending || text_eq o order_descending
    then none
    else some order_unrecognized

abbrev pub version3 : ℤ
version3 = pos 3

-- Version.Validate
unfoldable pub validate_version : ℤ → Option PagerError
validate_version (pos n) =
    if n == 1
    then some version_no_longer_supported
    else if n == 2 || n == 3
    then none
    else some version_unsupported
validate_version (negsuc n) = some version_unsupported

abbrev pub default_limit : ℤ
default_limit = pos 50

abbrev pub default_limit_multiplier : ℤ
default_limit_multiplier = pos 1

abbrev pub max_limit : ℕ
max_limit = 1500

pub record ResponseFields : Type 0 where
  pub has_next : Bool
  pub next : Cursor
  pub has_prev : Bool
  pub prev : Cursor
