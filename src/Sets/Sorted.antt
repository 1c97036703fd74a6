-- ===== src/Sets/Sorted.antt =====
-- infra/uctypes/set/set.go: Items, and string_set.go: the set of strings. The sorter, of
-- package sort, is a parameter.
use authzsdk.Prelude.{
  ◌≡◌, refl, ap, sym, subst, ◌∙◌, inl, inr, List, [], ◌∷◌, Bool, true, false, Bool-cases, arith, Eq,
  member, Unique, All, member_of_beq, beq_refl, beq_swap, Text, text_equality,
}
use authzsdk.Sets.{Set, new_set, is_in, equal, items}
use authzsdk.Sets.Elements.{IsKeyed}
use authzsdk.Sets.Algebra.{equal_iff}

-- A total order, as a sorter compares by it.
pub record TotalOrder (A : Type 0) : Type 0 where
  pub le : A → A → Bool
  pub total : (a b : A) → le a b ≡ false → le b a ≡ true
  pub trans : (a b c : A) → le a b ≡ true → le b c ≡ true → le a c ≡ true
  pub antisym : (a b : A) → le a b ≡ true → le b a ≡ true → a ≡ b

module _ {A : Type 0} ⦃e : Eq A⦄ (o : TotalOrder A) where
  abbrev pub Sorted : List A → Type 0
  Sorted [] = Unit
  Sorted (x ∷ xs) = All (λ y. o.le x y ≡ true) xs × Sorted xs

  -- What is asked of a sort of package sort: it returns the same elements, in order.
  pub record Sorts (sort : List A → List A) : Type 0 where
    pub in_order : (xs : List A) → Sorted (sort xs)
    pub members : (xs : List A) (b : A) → member (sort xs) b ≡ member xs b
    pub stays_unique : (xs : List A) → Unique xs → Unique (sort xs)

  -- The head of a sorted list is below every element.
  head_le : (x : A) (xs : List A) → Sorted (x ∷ xs) → (b : A) → member xs b ≡ true → o.le x b ≡ true
  unfolding member
  head_le x [] s b m = absurd (cc)
  head_le x (y ∷ ys) ((h, all), (_, s)) b m = elim (Bool-cases (e.beq y b)) [
    | inl k ↦ subst (λ z. o.le x z ≡ true) ((e.beq_iff y b).0 k) h
    | inr k ↦ head_le x ys (all, s) b (ground (arith, m, k))
  ]

  -- Sorted lists without duplicates are equal when their elements are.
  Sorted-Unique :
      (xs ys : List A)
      → Sorted xs
      → Unique xs
      → Sorted ys
      → Unique ys
      → ((a : A) → member xs a ≡ member ys a)
      → xs ≡ ys
  unfolding member
  Sorted-Unique [] [] s u t v h = refl
  Sorted-Unique [] (y ∷ ys) s u t v h = absurd (ground (arith, h y, beq_refl y))
  Sorted-Unique (x ∷ xs) [] s u t v h = absurd (ground (arith, h x, beq_refl x))
  Sorted-Unique (x ∷ xs) (y ∷ ys) s u t v h = elim (Bool-cases (e.beq x y)) [
    | inl k ↦
        let xy = (e.beq_iff x y).0 k in
        let tails : (a : A) → member xs a ≡ member ys a = λ a. ground (
          arith,
          h a,
          u.0,
          v.0,
          ap (λ z. e.beq z a) xy,
          (λ (b : e.beq x a ≡ true). member_of_beq xs x a b),
          λ (b : e.beq y a ≡ true). member_of_beq ys y a b,
        ) in
        cc (xy, Sorted-Unique xs ys s.1 u.1 t.1 v.1 tails)
    | inr k ↦
        let in_ys : member ys x ≡ true = ground (arith, h x, beq_refl x, beq_swap y x, k) in
        let in_xs : member xs y ≡ true = ground (arith, h y, beq_refl y, k) in
        absurd (
          cc (
            k,
            (e.beq_iff x y).1 (o.antisym x y (head_le x xs s y in_xs) (head_le y ys t x in_ys)),
          ))
  ]

  -- Of two sets that iterate over their keys in any order, and are equal by Equal, Items returns one
  -- and the same list, if their sorters sort by one total order.
  pub items_canonical :
      (s t : Set A)
      → IsKeyed s
      → IsKeyed t
      → Sorts s.sorter
      → Sorts t.sorter
      → equal s t ≡ true
      → items s ≡ items t
  unfolding items
  items_canonical s t u v p q h =
      let same =
        (equal_iff s t (is_in s) (is_in t) (record { is_set = u; members = λ a. refl })
            (record { is_set = v; members = λ a. refl })).0
          h in
      Sorted-Unique (s.sorter s.elements) (t.sorter t.elements) (p.in_order s.elements)
        (p.stays_unique s.elements u) (q.in_order t.elements) (q.stays_unique t.elements v)
        (λ a. p.members s.elements a ∙ (same a ∙ sym (q.members t.elements a)))

-- NewStringSet, with sort.Strings
unfoldable pub new_string_set : (List Text → List Text) → List Text → Set Text
unfolding new_set
new_string_set sort_strings = new_set sort_strings
