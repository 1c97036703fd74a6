-- ===== src/Idp/Constants.antt =====
-- The constants of the string enumerations: DurationUnit of idp/client.go, PolicyType and TransformType of
-- idp/policy/models.go, and DataLifeCycleState of idp/userstore/types.go.
use authzsdk.Prelude.{[], Text, lit}

abbrev pub duration_unit_day : Text
duration_unit_day = lit "day"

abbrev pub duration_unit_hour : Text
duration_unit_hour = lit "hour"

abbrev pub duration_unit_indefinite : Text
duration_unit_indefinite = lit "indefinite"

abbrev pub duration_unit_month : Text
duration_unit_month = lit "month"

abbrev pub duration_unit_week : Text
duration_unit_week = lit "week"

abbrev pub duration_unit_year : Text
duration_unit_year = lit "year"

abbrev pub policy_type_composite_and : Text
policy_type_composite_and = lit "composite_and"

abbrev pub policy_type_composite_or : Text
policy_type_composite_or = lit "composite_or"

abbrev pub policy_type_invalid : Text
policy_type_invalid = lit "invalid"

abbrev pub transform_type_pass_through : Text
transform_type_pass_through = lit "passthrough"

abbrev pub transform_type_tokenize_by_reference : Text
transform_type_tokenize_by_reference = lit "tokenizebyreference"

abbrev pub transform_type_tokenize_by_value : Text
transform_type_tokenize_by_value = lit "tokenizebyvalue"

abbrev pub transform_type_transform : Text
transform_type_transform = lit "transform"

abbrev pub data_life_cycle_state_default : Text
data_life_cycle_state_default = []

abbrev pub data_life_cycle_state_live : Text
data_life_cycle_state_live = lit "live"

abbrev pub data_life_cycle_state_post_delete : Text
data_life_cycle_state_post_delete = lit "postdelete"

abbrev pub data_life_cycle_state_pre_delete : Text
data_life_cycle_state_pre_delete = lit "predelete"

abbrev pub data_life_cycle_state_soft_deleted : Text
data_life_cycle_state_soft_deleted = lit "softdeleted"
