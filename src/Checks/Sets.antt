-- ===== src/Checks/Sets.antt =====
-- The theorems on sets at concrete sets of strings.
use authzsdk.Prelude.{◌≡◌, refl, lit, [], ◌∷◌, Text, member, text_equality, text_eq}
use authzsdk.Sets.{Set, put, put_all, all_members, new_set, equal, items}
use authzsdk.Sets.Algebra.{Implements, Refines, new_set-Implements, set_operations-Refines}
use authzsdk.Sets.Sorted.{new_string_set, items_canonical}
use authzsdk.Checks.Sorting.{sort_by, sort_by-Sorts, text_order}

abbrev pair : Set Text
pair = new_string_set (sort_by text_order) (lit "b" ∷ lit "a" ∷ [])

abbrev other_pair : Set Text
other_pair = new_string_set (sort_by text_order) (lit "a" ∷ lit "c" ∷ [])

abbrev pair_again : Set Text
pair_again = new_string_set (sort_by text_order) (lit "a" ∷ lit "b" ∷ lit "a" ∷ [])

pair-Implements : Implements pair (member (lit "b" ∷ lit "a" ∷ []))
unfolding new_string_set
pair-Implements = new_set-Implements (sort_by text_order) (lit "b" ∷ lit "a" ∷ [])

other_pair-Implements : Implements other_pair (member (lit "a" ∷ lit "c" ∷ []))
unfolding new_string_set
other_pair-Implements = new_set-Implements (sort_by text_order) (lit "a" ∷ lit "c" ∷ [])

set_operations-Refines_example :
    Refines pair other_pair
      (member (lit "b" ∷ lit "a" ∷ []))
      (member (lit "a" ∷ lit "c" ∷ []))
      pair-Implements
      other_pair-Implements
set_operations-Refines_example =
    set_operations-Refines pair other_pair (member (lit "b" ∷ lit "a" ∷ []))
      (member (lit "a" ∷ lit "c" ∷ [])) pair-Implements other_pair-Implements

pair_again-Implements : Implements pair_again (member (lit "a" ∷ lit "b" ∷ lit "a" ∷ []))
unfolding new_string_set
pair_again-Implements = new_set-Implements (sort_by text_order) (lit "a" ∷ lit "b" ∷ lit "a" ∷ [])

items_canonical_example : items pair ≡ items pair_again
unfolding new_string_set new_set equal put_all put all_members member text_eq
items_canonical_example =
    items_canonical text_order pair pair_again pair-Implements.is_set pair_again-Implements.is_set
      (sort_by-Sorts text_order) (sort_by-Sorts text_order) refl
