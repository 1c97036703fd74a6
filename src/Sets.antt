-- ===== src/Sets.antt =====
-- infra/uctypes/set/set.go: sets of a comparable type. The map is the list of its keys, in the order
-- in which this run iterates over it; the sorter is a parameter that the set carries.
pub mod Elements
pub mod Algebra
pub mod Sorted
use authzsdk.Prelude.{
  ℕ, List, [], ◌∷◌, Bool, true, false, not, ◌&&◌, ◌||◌, length, ◌==◌, ltb, if◌then◌else◌, Eq,
  member, remove,
}

pub record Set (A : Type 0) : Type 0 where
  pub elements : List A
  pub sorter : List A → List A

module _ {A : Type 0} ⦃e : Eq A⦄ where
  -- An assignment to a key of the map.
  unfoldable pub put : List A → A → List A
  put xs a = if member xs a then xs else a ∷ xs

  unfoldable pub put_all : List A → List A → List A
  unfolding put
  put_all xs [] = xs
  put_all xs (a ∷ rest) = put_all (put xs a) rest

  -- New
  unfoldable pub new_set : (List A → List A) → List A → Set A
  unfolding put_all
  new_set sorter items = record { elements = put_all [] items; sorter = sorter }

  abbrev pub size : Set A → ℕ
  size s = length s.elements

  abbrev pub is_in : Set A → A → Bool
  is_in s a = member s.elements a

  -- The loop of Equal: every element is in the other set.
  unfoldable pub all_members : List A → List A → Bool
  all_members [] other = true
  all_members (a ∷ rest) other =
      let later = all_members rest other in if member other a then later else false

  unfoldable pub equal : Set A → Set A → Bool
  unfolding all_members
  equal s other = if size s == size other then all_members s.elements other.elements else false

  unfoldable pub insert : Set A → List A → Set A
  unfolding put_all
  insert s items = record s { elements = put_all s.elements items }

  unfoldable pub evict : Set A → A → Set A × Bool
  unfolding remove
  evict s a = (record s { elements = remove a s.elements }, is_in s a)

  -- The loop over the elements of one list that copies those for which the test holds.
  unfoldable pub copy_if : (A → Bool) → List A → List A → List A
  unfolding put
  copy_if test [] output = output
  copy_if test (a ∷ rest) output = copy_if test rest (if test a then put output a else output)

  unfoldable pub difference : Set A → Set A → Set A
  unfolding copy_if
  difference s other = record s { elements = copy_if (λ a. not (is_in other a)) s.elements [] }

  unfoldable pub is_superset_of : Set A → Set A → Bool
  unfolding difference
  is_superset_of s other =
      if ltb (size s) (size other) then false else size (difference other s) == 0

  unfoldable pub symmetric_difference : Set A → Set A → Set A
  unfolding difference put_all
  symmetric_difference s other = record s {
    elements = put_all (difference s other).elements (difference other s).elements;
  }

  unfoldable pub intersection : Set A → Set A → Set A
  unfolding copy_if
  intersection s other =
      if ltb (size other) (size s)
      then record s { elements = copy_if (is_in s) other.elements [] }
      else record s { elements = copy_if (is_in other) s.elements [] }

  unfoldable pub union : Set A → Set A → Set A
  unfolding copy_if
  union s other = record s {
    elements = copy_if (λ a. true) other.elements (copy_if (λ a. true) s.elements []);
  }

  unfoldable pub items : Set A → List A
  items s = s.sorter s.elements
