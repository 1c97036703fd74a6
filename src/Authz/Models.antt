-- ===== src/Authz/Models.antt =====
-- authz/models.go, the generated validations beside it, and BaseModel of infra/ucdb/basemodel.go. An ID
-- is given by its text, `is_nil` is the test for uuid.Nil. A time is a number, zero for time.Time{}.
use authzsdk.Prelude.{
  ℕ, Option, none, some, List, [], ◌∷◌, Bool, true, false, not, ◌&&◌, ◌||◌, Text, text_eq,
  if◌then◌else◌, first_error, refuse_if, length, ◌==◌, map,
}

pub record BaseModel : Type 0 where
  pub id : Text
  pub created : ℕ
  pub updated : ℕ
  pub deleted : ℕ

pub data ModelError : Type 0 where
  nil_id deleted_before_saved empty_name nil_reference not_one_flag : ModelError

pub record ObjectType : Type 0 where
  pub base : BaseModel
  pub open base use {id}
  pub type_name : Text

pub record Attribute : Type 0 where
  pub name : Text
  pub direct : Bool
  pub inherit : Bool
  pub propagate : Bool

pub record EdgeType : Type 0 where
  pub base : BaseModel
  pub open base use {id}
  pub type_name : Text
  pub source_object_type_id : Text
  pub target_object_type_id : Text
  pub attributes : List Attribute
  pub organization_id : Text

pub record Object : Type 0 where
  pub base : BaseModel
  pub open base use {id}
  pub alias : Option Text
  pub type_id : Text
  pub organization_id : Text

pub record Edge : Type 0 where
  pub base : BaseModel
  pub open base use {id}
  pub edge_type_id : Text
  pub source_object_id : Text
  pub target_object_id : Text

pub record Organization : Type 0 where
  pub base : BaseModel
  pub open base use {id}
  pub name : Text
  pub region : Text

pub record AttributePathNode : Type 0 where
  pub object_id : Text
  pub edge_id : Text

-- BaseModel.Alive
abbrev pub alive : BaseModel → Bool
alive b = b.deleted == 0

-- Attribute.extraValidate
unfoldable pub extra_validate_attribute : Attribute → Option ModelError
extra_validate_attribute a =
    if a.direct && not a.inherit && not a.propagate
      || not a.direct && a.inherit && not a.propagate
      || not a.direct && not a.inherit && a.propagate
    then none
    else some not_one_flag

abbrev pub is_empty_text : Text → Bool
is_empty_text [] = true
is_empty_text (c ∷ s) = false

unfoldable pub validate_attribute : Attribute → Option ModelError
unfolding extra_validate_attribute
validate_attribute a =
    first_error (refuse_if (is_empty_text a.name) empty_name ∷ extra_validate_attribute a ∷ [])

module _ (is_nil : Text → Bool) where
  unfoldable pub validate_base : BaseModel → Option ModelError
  validate_base b = first_error (
      refuse_if (is_nil b.id) nil_id
      ∷ refuse_if (b.updated == 0 && not (alive b)) deleted_before_saved
      ∷ [])

  unfoldable pub validate_object_type : ObjectType → Option ModelError
  unfolding validate_base
  validate_object_type o =
      first_error (validate_base o.base ∷ refuse_if (is_empty_text o.type_name) empty_name ∷ [])

  unfoldable pub validate_edge_type : EdgeType → Option ModelError
  unfolding validate_base validate_attribute
  validate_edge_type o = first_error (
      validate_base o.base
      ∷ refuse_if (is_empty_text o.type_name) empty_name
      ∷ refuse_if (is_nil o.source_object_type_id) nil_reference
      ∷ refuse_if (is_nil o.target_object_type_id) nil_reference
      ∷ map validate_attribute o.attributes)

  unfoldable pub validate_object : Object → Option ModelError
  unfolding validate_base
  validate_object o =
      first_error (validate_base o.base ∷ refuse_if (is_nil o.type_id) nil_reference ∷ [])

  unfoldable pub validate_edge : Edge → Option ModelError
  unfolding validate_base
  validate_edge o = first_error (
      validate_base o.base
      ∷ refuse_if (is_nil o.edge_type_id) nil_reference
      ∷ refuse_if (is_nil o.source_object_id) nil_reference
      ∷ refuse_if (is_nil o.target_object_id) nil_reference
      ∷ [])

  unfoldable pub validate_path_node : AttributePathNode → Option ModelError
  validate_path_node n = refuse_if (is_nil n.object_id) nil_reference

-- The methods EqualsIgnoringID.
unfoldable pub object_type_equals : ObjectType → ObjectType → Bool
object_type_equals ot other = text_eq ot.type_name other.type_name

-- The map of the other type's attributes by name, in which the last of one name stays.
unfoldable pub attribute_of : List Attribute → Text → Option Attribute
attribute_of [] name = none
attribute_of (a ∷ rest) name =
    let later = attribute_of rest name in
    elim later [ some b ↦ some b | none ↦ if text_eq a.name name then some a else none ]

abbrev pub same_flag : Bool → Bool → Bool
same_flag true b = b
same_flag false b = not b

unfoldable pub attribute_eq : Attribute → Attribute → Bool
attribute_eq a b =
    text_eq a.name b.name
    && same_flag a.direct b.direct
    && same_flag a.inherit b.inherit
    && same_flag a.propagate b.propagate

abbrev pub is_the : Attribute → Option Attribute → Bool
is_the a none = false
is_the a (some b) = attribute_eq b a

-- The loop over the attributes of the one type.
unfoldable pub all_in : List Attribute → List Attribute → Bool
unfolding attribute_of attribute_eq
all_in [] others = true
all_in (a ∷ rest) others = is_the a (attribute_of others a.name) && all_in rest others

unfoldable pub edge_type_equals : EdgeType → EdgeType → Bool
unfolding all_in
edge_type_equals e other =
    text_eq e.type_name other.type_name
    && text_eq e.source_object_type_id other.source_object_type_id
    && text_eq e.target_object_type_id other.target_object_type_id
    && text_eq e.organization_id other.organization_id
    && length e.attributes == length other.attributes
    && all_in e.attributes other.attributes

abbrev pub alias_eq : Option Text → Option Text → Bool
alias_eq none none = true
alias_eq none (some b) = false
alias_eq (some a) none = false
alias_eq (some a) (some b) = text_eq a b

unfoldable pub object_equals : Object → Object → Bool
object_equals o other =
    alias_eq o.alias other.alias
    && text_eq o.type_id other.type_id
    && text_eq o.organization_id other.organization_id

unfoldable pub edge_equals : Edge → Edge → Bool
edge_equals e other =
    text_eq e.edge_type_id other.edge_type_id
    && text_eq e.source_object_id other.source_object_id
    && text_eq e.target_object_id other.target_object_id
