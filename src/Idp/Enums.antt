-- ===== src/Idp/Enums.antt =====
-- The generated enumerations of packages idp, idp/policy and idp/userstore, whose constants are strings,
-- each with the cases of its own three switches, and what idp/userstore/types.go makes of
-- DataLifeCycleState.
use authzsdk.Prelude.{
  Option, none, some, List, [], ◌∷◌, Bool, Text, lit, text_eq, text_equality, if◌then◌else◌, member,
}
use authzsdk.Idp.Constants.{
  duration_unit_day, duration_unit_hour, duration_unit_indefinite, duration_unit_month,
  duration_unit_week, duration_unit_year, policy_type_composite_and, policy_type_composite_or,
  policy_type_invalid, transform_type_pass_through, transform_type_tokenize_by_reference,
  transform_type_tokenize_by_value, transform_type_transform, data_life_cycle_state_default,
  data_life_cycle_state_live, data_life_cycle_state_post_delete, data_life_cycle_state_pre_delete,
  data_life_cycle_state_soft_deleted,
}

pub data Enum : Type 0 where
  duration_unit policy_type transform_type data_life_cycle_state : Enum

-- DurationUnit: MarshalText, UnmarshalText, and the values that Validate accepts
abbrev pub duration_unit_marshal_cases : List (Text × Text)
duration_unit_marshal_cases =
    (duration_unit_day, lit "day")
    ∷ (duration_unit_hour, lit "hour")
    ∷ (duration_unit_indefinite, lit "indefinite")
    ∷ (duration_unit_month, lit "month")
    ∷ (duration_unit_week, lit "week")
    ∷ (duration_unit_year, lit "year")
    ∷ []

abbrev pub duration_unit_unmarshal_cases : List (Text × Text)
duration_unit_unmarshal_cases =
    (lit "day", duration_unit_day)
    ∷ (lit "hour", duration_unit_hour)
    ∷ (lit "indefinite", duration_unit_indefinite)
    ∷ (lit "month", duration_unit_month)
    ∷ (lit "week", duration_unit_week)
    ∷ (lit "year", duration_unit_year)
    ∷ []

abbrev pub duration_unit_valid : List Text
duration_unit_valid =
    duration_unit_day ∷ duration_unit_hour ∷ duration_unit_indefinite ∷ duration_unit_month
    ∷ duration_unit_week ∷ duration_unit_year ∷ []

-- PolicyType: MarshalText, UnmarshalText, and the values that Validate accepts
abbrev pub policy_type_marshal_cases : List (Text × Text)
policy_type_marshal_cases =
    (policy_type_composite_and, lit "composite_and")
    ∷ (policy_type_composite_or, lit "composite_or")
    ∷ (policy_type_invalid, lit "invalid")
    ∷ []

abbrev pub policy_type_unmarshal_cases : List (Text × Text)
policy_type_unmarshal_cases =
    (lit "composite_and", policy_type_composite_and)
    ∷ (lit "composite_or", policy_type_composite_or)
    ∷ (lit "invalid", policy_type_invalid)
    ∷ []

abbrev pub policy_type_valid : List Text
policy_type_valid = policy_type_composite_and ∷ policy_type_composite_or ∷ []

-- TransformType: MarshalText, UnmarshalText, and the values that Validate accepts
abbrev pub transform_type_marshal_cases : List (Text × Text)
transform_type_marshal_cases =
    (transform_type_pass_through, lit "passthrough")
    ∷ (transform_type_tokenize_by_reference, lit "tokenizebyreference")
    ∷ (transform_type_tokenize_by_value, lit "tokenizebyvalue")
    ∷ (transform_type_transform, lit "transform")
    ∷ []

abbrev pub transform_type_unmarshal_cases : List (Text × Text)
transform_type_unmarshal_cases =
    (lit "passthrough", transform_type_pass_through)
    ∷ (lit "tokenizebyreference", transform_type_tokenize_by_reference)
    ∷ (lit "tokenizebyvalue", transform_type_tokenize_by_value)
    ∷ (lit "transform", transform_type_transform)
    ∷ []

abbrev pub transform_type_valid : List Text
transform_type_valid =
    transform_type_pass_through ∷ transform_type_tokenize_by_reference
    ∷ transform_type_tokenize_by_value ∷ transform_type_transform ∷ []

-- DataLifeCycleState: MarshalText, UnmarshalText, and the values that Validate accepts
abbrev pub data_life_cycle_state_marshal_cases : List (Text × Text)
data_life_cycle_state_marshal_cases =
    (data_life_cycle_state_default, [])
    ∷ (data_life_cycle_state_live, lit "live")
    ∷ (data_life_cycle_state_post_delete, lit "postdelete")
    ∷ (data_life_cycle_state_pre_delete, lit "predelete")
    ∷ (data_life_cycle_state_soft_deleted, lit "softdeleted")
    ∷ []

abbrev pub data_life_cycle_state_unmarshal_cases : List (Text × Text)
data_life_cycle_state_unmarshal_cases =
    ([], data_life_cycle_state_default)
    ∷ (lit "live", data_life_cycle_state_live)
    ∷ (lit "postdelete", data_life_cycle_state_post_delete)
    ∷ (lit "predelete", data_life_cycle_state_pre_delete)
    ∷ (lit "softdeleted", data_life_cycle_state_soft_deleted)
    ∷ []

abbrev pub data_life_cycle_state_valid : List Text
data_life_cycle_state_valid =
    data_life_cycle_state_default ∷ data_life_cycle_state_live ∷ data_life_cycle_state_post_delete
    ∷ data_life_cycle_state_pre_delete ∷ data_life_cycle_state_soft_deleted ∷ []

unfoldable pub marshal_cases : Enum → List (Text × Text)
marshal_cases duration_unit = duration_unit_marshal_cases
marshal_cases policy_type = policy_type_marshal_cases
marshal_cases transform_type = transform_type_marshal_cases
marshal_cases data_life_cycle_state = data_life_cycle_state_marshal_cases

unfoldable pub unmarshal_cases : Enum → List (Text × Text)
unmarshal_cases duration_unit = duration_unit_unmarshal_cases
unmarshal_cases policy_type = policy_type_unmarshal_cases
unmarshal_cases transform_type = transform_type_unmarshal_cases
unmarshal_cases data_life_cycle_state = data_life_cycle_state_unmarshal_cases

unfoldable pub valid_values : Enum → List Text
valid_values duration_unit = duration_unit_valid
valid_values policy_type = policy_type_valid
valid_values transform_type = transform_type_valid
valid_values data_life_cycle_state = data_life_cycle_state_valid

-- A switch: the first case that is equal to the key.
unfoldable pub switch : List (Text × Text) → Text → Option Text
switch [] key = none
switch ((k, v) ∷ cases) key =
    let later = switch cases key in if text_eq k key then some v else later

unfoldable pub marshal_text : Enum → Text → Option Text
unfolding switch marshal_cases
marshal_text e v = switch (marshal_cases e) v

unfoldable pub unmarshal_text : Enum → Text → Option Text
unfolding switch unmarshal_cases
unmarshal_text e s = switch (unmarshal_cases e) s

unfoldable pub validate_enum : Enum → Text → Bool
unfolding valid_values
validate_enum e v = member (valid_values e) v

-- DataLifeCycleState.GetConcrete and IsLive
unfoldable pub get_concrete : Text → Text
get_concrete state =
    if text_eq state []
    then lit "live"
    else if text_eq state (lit "predelete")
    then lit "live"
    else if text_eq state (lit "postdelete")
    then lit "softdeleted"
    else state

unfoldable pub is_live : Text → Bool
unfolding get_concrete
is_live state = text_eq (get_concrete state) (lit "live")
