-- ===== src/Idp/Resources.antt =====
-- idp/userstore/types.go: the type ResourceID. An ID is given by its text, `is_nil` is the test for uuid.Nil.
-- `equal_fold` is EqualFold of package strings.
use authzsdk.Prelude.{
  ℕ, ◌+◌, Option, none, some, [], ◌∷◌, Bool, true, false, not, ◌&&◌, ◌||◌, Text, text_eq, ltb, ◌==◌,
  if◌then◌else◌,
}

pub record ResourceId : Type 0 where
  pub id : Text
  pub name : Text

pub data ResourceError : Type 0 where
  neither_id_nor_name : ResourceError

abbrev pub is_empty : Text → Bool
is_empty [] = true
is_empty (c ∷ s) = false

module _ (is_nil : Text → Bool) (equal_fold : Text → Text → Bool) where
  -- One field of the two: none is a conflict, and else what it adds to the counters of expected matches
  -- and of matches.
  abbrev pub compared : Bool → Bool → Bool → Option (ℕ × ℕ)
  compared is_set is_same other_set =
      if not is_set
      then some (0, 0)
      else if is_same
      then some (1, 1)
      else if other_set
      then none
      else some (1, 0)

  abbrev pub counted : Option (ℕ × ℕ) → Option (ℕ × ℕ) → Bool
  counted none b = false
  counted (some a) none = false
  counted (some (m, n)) (some (m', n')) = (m + m') == 0 || ltb 0 (n + n')

  unfoldable pub is_compatible_with : ResourceId → ResourceId → Bool
  is_compatible_with r other =
      counted (compared (not (is_nil r.id)) (text_eq r.id other.id) (not (is_nil other.id))) (
        compared (not (is_empty r.name)) (equal_fold r.name other.name) (not (is_empty other.name)))

  unfoldable pub equivalent_to : ResourceId → ResourceId → Bool
  unfolding is_compatible_with
  equivalent_to r other = is_compatible_with r other && is_compatible_with other r

module _ (is_nil : Text → Bool) where
  unfoldable pub validate_resource_id : ResourceId → Option ResourceError
  validate_resource_id r = if is_nil r.id && is_empty r.name then some neither_id_nor_name else none
