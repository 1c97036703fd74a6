-- ===== src/Checks/Idp.antt =====
-- The theorems on the models of package idp at concrete values.
use authzsdk.Prelude.{
  List, ◌∷◌, ◌≡◌, ◌↔◌, refl, some, none, [], Bool, true, false, ◌&&◌, ◌||◌, Text, lit, text_eq,
  text_eq_of_eq, eq_of_text_eq, ap, sym, is_some,
}
use authzsdk.Idp.Enums.{policy_type, marshal_text, unmarshal_text, validate_enum}
use authzsdk.Idp.RoundTrips.{marshal_text-unmarshal_text}
use authzsdk.Idp.Resources.{ResourceId, is_empty, validate_resource_id, equivalent_to}
use authzsdk.Idp.Equivalence.{agree, share, is_unset, equivalent_to_iff}
use authzsdk.Idp.Policies.{AccessPolicyComponent, validate_component, valid, panics}
use authzsdk.Idp.Accessors.{
  ColumnInputConfig, is_given, count_columns, column_error, no_normalizers,
}
use authzsdk.Idp.Mutators.{all_columns, column_error_iff}
use authzsdk.Idp.Components.{validate_component_iff}

marshal_text-unmarshal_text_example :
    ((marshal_text policy_type (lit "invalid") ≡ some (lit "invalid"))
      ↔ (unmarshal_text policy_type (lit "invalid") ≡ some (lit "invalid")))
    × (validate_enum policy_type (lit "invalid") ≡ true
        → is_some (marshal_text policy_type (lit "invalid")) ≡ true)
marshal_text-unmarshal_text_example =
    marshal_text-unmarshal_text policy_type (lit "invalid") (lit "invalid")

abbrev is_nil : Text → Bool
is_nil = text_eq (lit "0")

abbrev id_alone : ResourceId
id_alone = record { id = lit "1"; name = [] }

abbrev name_alone : ResourceId
name_alone = record { id = lit "0"; name = lit "n" }

-- An ID alone and a name alone may refer to one resource, and are not equivalent.
wildcards : equivalent_to is_nil text_eq id_alone name_alone ≡ false
unfolding equivalent_to text_eq
wildcards = refl

equivalent_to_iff_example : equivalent_to is_nil text_eq id_alone name_alone ≡ (
    agree is_nil text_eq id_alone name_alone
    && (share is_nil text_eq id_alone name_alone
        || is_unset is_nil text_eq id_alone && is_unset is_nil text_eq name_alone))
equivalent_to_iff_example =
    equivalent_to_iff is_nil text_eq (λ s t h. text_eq_of_eq t s (sym (eq_of_text_eq s t h)))
      (λ s t h. ap is_empty (eq_of_text_eq s t h)) id_alone name_alone

abbrev policy_alone : AccessPolicyComponent
policy_alone = record { policy = some id_alone; template = none; template_parameters = [] }

validate_component_iff_example :
    ((validate_component is_nil (λ s. true) policy_alone ≡ panics) ↔ (false ≡ false))
    × ((validate_component is_nil (λ s. true) policy_alone ≡ valid) ↔ (false ≡ true))
validate_component_iff_example = validate_component_iff is_nil (λ s. true) policy_alone

-- A column with a normalizer and one with a validator.
abbrev columns : List ColumnInputConfig
columns =
    record {
      column = id_alone;
      normalizer = id_alone;
      validator = record { id = lit "0"; name = [] };
    }
    ∷ record {
      column = id_alone;
      normalizer = record { id = lit "0"; name = [] };
      validator = id_alone;
    }
    ∷ []

-- Columns of which each has one of the two, but not all the same one, are refused.
mixed_columns : column_error is_nil 2 (count_columns is_nil 0 0 columns) ≡ some no_normalizers
unfolding count_columns text_eq validate_resource_id
mixed_columns = refl

column_error_iff_example : (column_error is_nil 2 (count_columns is_nil 0 0 columns) ≡ none) ↔ (
    all_columns is_nil (λ v. is_given is_nil v.column) columns
      && (all_columns is_nil (λ v. is_given is_nil v.normalizer) columns
          || all_columns is_nil (λ v. is_given is_nil v.validator) columns)
    ≡ true)
column_error_iff_example = column_error_iff is_nil columns
