-- ===== src/Idp/Policies.antt =====
-- idp/policy/models.go: access policies, their components and templates, and transformers. An ID is given
-- by its text. `is_dictionary` and `is_array` are the tests that encoding/json reads a text as a map and as
-- a slice, `equal_fold` is EqualFold of package strings. A nil pointer is none.
-- The records have the fields that validation and equality read.
use authzsdk.Prelude.{
  ℕ, Option, none, some, List, [], ◌∷◌, Bool, true, false, not, ◌&&◌, ◌||◌, Text, lit, text_eq, leb,
  ◌==◌, if◌then◌else◌, length, first_error, refuse_if, is_some,
}
use authzsdk.Idp.Resources.{ResourceId, validate_resource_id, is_empty}

pub data PolicyError : Type 0 where
  bad_name no_components not_one_of_both bad_parameters not_tokenizing : PolicyError

pub record AccessPolicyComponent : Type 0 where
  pub policy : Option ResourceId
  pub template : Option ResourceId
  pub template_parameters : Text

pub record AccessPolicyThresholds : Type 0 where
  pub announce_max_execution_failure : Bool
  pub announce_max_result_failure : Bool
  pub max_executions : ℕ
  pub max_execution_duration_seconds : ℕ
  pub max_results_per_execution : ℕ

pub record AccessPolicy : Type 0 where
  pub id : Text
  pub name : Text
  pub description : Text
  pub policy_type : Text
  pub version : ℕ
  pub is_system : Bool
  pub components : List AccessPolicyComponent
  pub thresholds : AccessPolicyThresholds

pub record AccessPolicyTemplate : Type 0 where
  pub id : Text
  pub name : Text
  pub function : Text
  pub is_system : Bool

pub record Transformer : Type 0 where
  pub name : Text
  pub reuse_existing_token : Bool
  pub transform_type : Text
  pub parameters : Text

-- What Validate of a component comes to.
pub data Validated : Type 0 where
  valid panics : Validated
  invalid : PolicyError → Validated

-- The expression validIdentifier: a letter or underscore, then letters, digits, underscores and dashes.
abbrev pub is_letter : ℕ → Bool
is_letter c = leb 97 c && leb c 122 || leb 65 c && leb c 90 || c == 95

unfoldable pub all_identifier : Text → Bool
all_identifier [] = true
all_identifier (c ∷ s) = (is_letter c || leb 48 c && leb c 57 || c == 45) && all_identifier s

unfoldable pub valid_identifier : Text → Bool
unfolding all_identifier
valid_identifier [] = false
valid_identifier (c ∷ s) = is_letter c && all_identifier s

abbrev pub is_tokenizing : Text → Bool
is_tokenizing t = text_eq t (lit "tokenizebyvalue") || text_eq t (lit "tokenizebyreference")

unfoldable pub extra_validate_policy : AccessPolicy → Option PolicyError
unfolding valid_identifier
extra_validate_policy a = first_error (
    refuse_if (not (valid_identifier a.name)) bad_name
    ∷ refuse_if (length a.components == 0) no_components
    ∷ [])

unfoldable pub extra_validate_template : AccessPolicyTemplate → Option PolicyError
unfolding valid_identifier
extra_validate_template a = refuse_if (not (valid_identifier a.name)) bad_name

module _ (is_dictionary is_array : Text → Bool) where
  unfoldable pub extra_validate_transformer : Transformer → Option PolicyError
  unfolding valid_identifier
  extra_validate_transformer g = first_error (
      refuse_if (not (valid_identifier g.name)) bad_name
      ∷ refuse_if
          (not (is_empty g.parameters)
            && not (is_dictionary g.parameters)
            && not (is_array g.parameters))
          bad_parameters
      ∷ refuse_if (g.reuse_existing_token && not (is_tokenizing g.transform_type)) not_tokenizing
      ∷ [])

module _ (is_nil : Text → Bool) where
  -- Validate of a ResourceID behind a pointer; its receiver is a value, so a nil pointer panics.
  abbrev pub is_valid_resource : ResourceId → Bool
  is_valid_resource r = not (is_some (validate_resource_id is_nil r))

  -- AccessPolicyComponent.Validate
  unfoldable pub validate_component : (Text → Bool) → AccessPolicyComponent → Validated
  validate_component is_dictionary a = elim a.policy [
    | none ↦ panics
    | some policy ↦ elim a.template [
      | none ↦ panics
      | some template ↦
          let p = is_valid_resource policy in
          let t = is_valid_resource template in
          if not p && not t || p && t
          then invalid not_one_of_both
          else if t
          then (if not (is_dictionary a.template_parameters) && not (is_empty a.template_parameters)
              then invalid bad_parameters
              else valid)
          else if not (is_empty a.template_parameters)
          then invalid bad_parameters
          else valid
    ]
  ]

  -- The methods EqualsIgnoringNilID.
  abbrev pub same_or_nil : Text → Text → Bool
  same_or_nil id other = text_eq id other || is_nil id || is_nil other

  abbrev pub flag_eq : Bool → Bool → Bool
  flag_eq true b = b
  flag_eq false b = not b

  abbrev pub same_reference : Option ResourceId → Option ResourceId → Bool
  same_reference none none = true
  same_reference none (some s) = false
  same_reference (some r) none = false
  same_reference (some r) (some s) = text_eq r.id s.id

  unfoldable pub components_equal : List AccessPolicyComponent → List AccessPolicyComponent → Bool
  components_equal [] others = true
  components_equal (c ∷ cs) [] = false
  components_equal (c ∷ cs) (d ∷ ds) =
      same_reference c.policy d.policy
      && same_reference c.template d.template
      && text_eq c.template_parameters d.template_parameters
      && components_equal cs ds

  abbrev pub thresholds_eq : AccessPolicyThresholds → AccessPolicyThresholds → Bool
  thresholds_eq a b =
      flag_eq a.announce_max_execution_failure b.announce_max_execution_failure
      && flag_eq a.announce_max_result_failure b.announce_max_result_failure
      && a.max_executions == b.max_executions
      && a.max_execution_duration_seconds == b.max_execution_duration_seconds
      && a.max_results_per_execution == b.max_results_per_execution

  module _ (equal_fold : Text → Text → Bool) where
    unfoldable pub policy_equals : AccessPolicy → AccessPolicy → Bool
    unfolding components_equal
    policy_equals a other =
        same_or_nil a.id other.id
        && equal_fold a.name other.name
        && equal_fold a.description other.description
        && text_eq a.policy_type other.policy_type
        && thresholds_eq a.thresholds other.thresholds
        && flag_eq a.is_system other.is_system
        && length a.components == length other.components
        && components_equal a.components other.components

    unfoldable pub template_equals : AccessPolicyTemplate → AccessPolicyTemplate → Bool
    template_equals a other =
        same_or_nil a.id other.id
        && equal_fold a.name other.name
        && text_eq a.function other.function
        && flag_eq a.is_system other.is_system

-- The IDs of AccessPolicyAllowAll and AccessPolicyTemplateAllowAll.
abbrev pub allow_all_policy : Text
allow_all_policy = lit "3f380e42-0b21-4570-a312-91e1b80386fa"

abbrev pub allow_all_template : Text
allow_all_template = lit "1e742248-fdde-4c88-9ea7-2c2106ec7aa8"

abbrev pub allows_all : AccessPolicyComponent → Bool
allows_all c = elim c.policy [
  | some p ↦ text_eq p.id allow_all_policy
  | none ↦ elim c.template [ some t ↦ text_eq t.id allow_all_template | none ↦ false ]
]

unfoldable pub all_allow : List AccessPolicyComponent → Bool
all_allow [] = true
all_allow (c ∷ cs) = let rest = all_allow cs in if allows_all c then rest else false

unfoldable pub is_allow_all : AccessPolicy → Bool
unfolding all_allow
is_allow_all a =
    if text_eq a.id allow_all_policy
    then true
    else if text_eq a.policy_type (lit "composite_and")
        || text_eq a.policy_type (lit "composite_or")
    then not (length a.components == 0) && all_allow a.components
    else false
