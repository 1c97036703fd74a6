-- ===== src/Idp/Equivalence.antt =====
-- When two resource IDs are equivalent.
use authzsdk.Prelude.{
  ◌≡◌, ap, sym, Bool, true, not, ◌&&◌, ◌||◌, Text, text_eq, eq_of_text_eq, text_eq_of_eq, arith,
}
use authzsdk.Idp.Resources.{ResourceId, is_empty, is_compatible_with, equivalent_to}

module _ (is_nil : Text → Bool) (equal_fold : Text → Text → Bool) where
  -- Neither ID nor name is set in both and different.
  abbrev pub agree : ResourceId → ResourceId → Bool
  agree r other =
      (is_nil r.id || is_nil other.id || text_eq r.id other.id)
      && (is_empty r.name || is_empty other.name || equal_fold r.name other.name)

  -- A field is set and the same in both.
  abbrev pub share : ResourceId → ResourceId → Bool
  share r other =
      not (is_nil r.id) && text_eq r.id other.id
      || not (is_empty r.name) && equal_fold r.name other.name

  abbrev pub is_unset : ResourceId → Bool
  is_unset r = is_nil r.id && is_empty r.name

  module _ (symmetric : (s t : Text) → equal_fold s t ≡ true → equal_fold t s ≡ true)
      (same_emptiness : (s t : Text) → equal_fold s t ≡ true → is_empty s ≡ is_empty t) where
    -- Two resource IDs are equivalent exactly if no field contradicts, and they have a field in common or
    -- are both without any, for a comparison of names that is symmetric and tells empty names from
    -- others. One with an ID alone is never equivalent to one with a name alone.
    pub equivalent_to_iff :
        (r other : ResourceId)
        → equivalent_to is_nil equal_fold r other
          ≡ (agree r other && (share r other || is_unset r && is_unset other))
    unfolding equivalent_to is_compatible_with
    equivalent_to_iff r other = ground (
      arith,
      symmetric r.name other.name,
      symmetric other.name r.name,
      same_emptiness r.name other.name,
      λ (h : text_eq r.id other.id ≡ true). ap is_nil (eq_of_text_eq r.id other.id h),
      λ (h : text_eq r.id other.id ≡ true).
          text_eq_of_eq other.id r.id (sym (eq_of_text_eq r.id other.id h)),
      λ (h : text_eq other.id r.id ≡ true).
          text_eq_of_eq r.id other.id (sym (eq_of_text_eq other.id r.id h)),
    )
