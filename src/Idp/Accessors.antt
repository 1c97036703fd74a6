-- ===== src/Idp/Accessors.antt =====
-- idp/userstore/types.go: the validations of accessors, mutators and purposes that no tag expresses, and the
-- comparison of databases and object stores. The records have the fields that these read. `parses` is the
-- test that ParseWhereClause of idp/userstore/selectorconfigparser accepts a clause.
use authzsdk.Prelude.{
  ℕ, suc, Option, none, some, List, [], ◌∷◌, Bool, true, false, not, ◌&&◌, ◌||◌, Text, lit, text_eq,
  ◌==◌, if◌then◌else◌, length, first_error, refuse_if, is_some,
}
use authzsdk.Idp.Resources.{ResourceId, validate_resource_id, is_empty}
use authzsdk.Idp.Policies.{valid_identifier}

pub data StoreError : Type 0 where
  bad_name no_columns bad_column no_normalizers bad_access_policy no_purposes : StoreError
  bad_selector no_credentials : StoreError

pub record Accessor : Type 0 where
  pub name : Text
  pub columns : List ResourceId
  pub access_policy : ResourceId
  pub purposes : List ResourceId

pub record ColumnInputConfig : Type 0 where
  pub column : ResourceId
  pub normalizer : ResourceId
  pub validator : ResourceId

pub record Mutator : Type 0 where
  pub name : Text
  pub columns : List ColumnInputConfig
  pub access_policy : ResourceId
  pub is_system : Bool

pub record SqlShimDatabase : Type 0 where
  pub id : Text
  pub name : Text
  pub kind : Text
  pub host : Text
  pub port : ℕ
  pub username : Text

pub record ShimObjectStore : Type 0 where
  pub id : Text
  pub name : Text
  pub kind : Text
  pub region : Text
  pub access_key_id : Text
  pub role_arn : Text

module _ (is_nil : Text → Bool) where
  abbrev pub is_given : ResourceId → Bool
  is_given r = not (is_some (validate_resource_id is_nil r))

  -- The loop over the columns of an accessor.
  unfoldable pub all_given : List ResourceId → Bool
  all_given [] = true
  all_given (r ∷ rs) = let rest = all_given rs in if is_given r then rest else false

  unfoldable pub extra_validate_accessor : Accessor → Option StoreError
  unfolding all_given valid_identifier
  extra_validate_accessor o = first_error (
      refuse_if (not (valid_identifier o.name)) bad_name
      ∷ refuse_if (length o.columns == 0) no_columns
      ∷ refuse_if (not (all_given o.columns)) bad_column
      ∷ refuse_if (not (is_given o.access_policy)) bad_access_policy
      ∷ refuse_if (length o.purposes == 0) no_purposes
      ∷ [])

  -- The loop over the columns of a mutator: none if one has no column, and else the numbers of those with
  -- a normalizer and of those with a validator.
  unfoldable pub count_columns : ℕ → ℕ → List ColumnInputConfig → Option (ℕ × ℕ)
  count_columns normalizers validators [] = some (normalizers, validators)
  count_columns normalizers validators (v ∷ vs) =
      let rest =
        count_columns (if is_given v.normalizer then suc normalizers else normalizers)
          (if is_given v.validator then suc validators else validators) vs in
      if is_given v.column then rest else none

  abbrev pub column_error : ℕ → Option (ℕ × ℕ) → Option StoreError
  column_error total none = some bad_column
  column_error total (some (normalizers, validators)) =
      refuse_if (not (normalizers == total) && not (validators == total)) no_normalizers

  unfoldable pub extra_validate_mutator : Mutator → Option StoreError
  unfolding count_columns valid_identifier
  extra_validate_mutator o = first_error (
      refuse_if (not (valid_identifier o.name)) bad_name
      ∷ refuse_if (length o.columns == 0 && not o.is_system) no_columns
      ∷ column_error (length o.columns) (count_columns 0 0 o.columns)
      ∷ refuse_if (not (is_given o.access_policy)) bad_access_policy
      ∷ [])

  -- The methods that compare, up to a nil ID and case.
  abbrev pub same_id_or_nil : Text → Text → Bool
  same_id_or_nil id other = text_eq id other || is_nil id || is_nil other

  module _ (equal_fold : Text → Text → Bool) where
    unfoldable pub database_equals : SqlShimDatabase → SqlShimDatabase → Bool
    database_equals s other =
        same_id_or_nil s.id other.id
        && equal_fold s.name other.name
        && equal_fold s.kind other.kind
        && equal_fold s.host other.host
        && s.port == other.port
        && equal_fold s.username other.username

    unfoldable pub object_store_equals : ShimObjectStore → ShimObjectStore → Bool
    object_store_equals s other =
        same_id_or_nil s.id other.id
        && equal_fold s.name other.name
        && equal_fold s.kind other.kind
        && equal_fold s.region other.region
        && equal_fold s.access_key_id other.access_key_id

-- Purpose.extraValidate, of the name.
unfoldable pub extra_validate_purpose : Text → Option StoreError
unfolding valid_identifier
extra_validate_purpose name = refuse_if (not (valid_identifier name)) bad_name

unfoldable pub extra_validate_object_store : ShimObjectStore → Option StoreError
extra_validate_object_store s =
    refuse_if (is_empty s.access_key_id && is_empty s.role_arn) no_credentials

-- UserSelectorConfig, by its clause
abbrev pub matches_all : Text → Bool
matches_all clause = text_eq clause (lit "ALL")

unfoldable pub extra_validate_selector : (Text → Bool) → Text → Option StoreError
extra_validate_selector parses clause =
    if matches_all clause then none else refuse_if (not (parses clause)) bad_selector
