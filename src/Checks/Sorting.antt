-- ===== src/Checks/Sorting.antt =====
-- An insertion sort, and strings in the order of their bytes: what package sort is asked, by a concrete
-- function.
use authzsdk.Prelude.{
  ◌≡◌, refl, ◌∙◌, inl, inr, List, [], ◌∷◌, Bool, true, false, ◌||◌, if◌then◌else◌, Bool-cases,
  arith, Eq, member, Unique, All, beq_swap, Text, text_equality, ltb, ◌==◌,
}
use authzsdk.Sets.Sorted.{TotalOrder, Sorted, Sorts}

module _ {A : Type 0} ⦃e : Eq A⦄ (o : TotalOrder A) where
  unfoldable pub place : A → List A → List A
  place a [] = a ∷ []
  place a (x ∷ xs) = let later = place a xs in if o.le a x then a ∷ x ∷ xs else x ∷ later

  unfoldable pub sort_by : List A → List A
  unfolding place
  sort_by [] = []
  sort_by (x ∷ xs) = place x (sort_by xs)

  member-place : (a b : A) (xs : List A) → member (place a xs) b ≡ (e.beq a b || member xs b)
  unfolding place member
  member-place a b [] = refl
  member-place a b (x ∷ xs) = ground (arith, member-place a b xs)

  member-sort_by : (xs : List A) (b : A) → member (sort_by xs) b ≡ member xs b
  unfolding sort_by member
  member-sort_by [] b = refl
  member-sort_by (x ∷ xs) b = ground (arith, member-place x b (sort_by xs), member-sort_by xs b)

  All-place :
      (x a : A) (xs : List A)
      → o.le x a ≡ true
      → All (λ y. o.le x y ≡ true) xs
      → All (λ y. o.le x y ≡ true) (place a xs)
  unfolding place
  All-place x a [] h all = (h, tt)
  All-place x a (y ∷ ys) h (k, all) = elim (Bool-cases (o.le a y)) [
    | inl b ↦ rw b (h, (k, all))
    | inr b ↦ rw b (k, All-place x a ys h all)
  ]

  All-trans :
      (a x : A) (xs : List A)
      → o.le a x ≡ true
      → All (λ y. o.le x y ≡ true) xs
      → All (λ y. o.le a y ≡ true) xs
  All-trans a x [] h all = tt
  All-trans a x (y ∷ ys) h (k, all) = (o.trans a x y h k, All-trans a x ys h all)

  place-Sorted : (a : A) (xs : List A) → Sorted o xs → Sorted o (place a xs)
  unfolding place
  place-Sorted a [] s = (tt, tt)
  place-Sorted a (x ∷ xs) (all, s) = elim (Bool-cases (o.le a x)) [
    | inl b ↦ rw b ((b, All-trans a x xs b all), (all, s))
    | inr b ↦ rw b (All-place x a xs (o.total a x b) all, place-Sorted a xs s)
  ]

  sort_by-Sorted : (xs : List A) → Sorted o (sort_by xs)
  unfolding sort_by
  sort_by-Sorted [] = tt
  sort_by-Sorted (x ∷ xs) = place-Sorted x (sort_by xs) (sort_by-Sorted xs)

  place-Unique : (a : A) (xs : List A) → member xs a ≡ false → Unique xs → Unique (place a xs)
  unfolding place member
  place-Unique a [] h u = (refl, tt)
  place-Unique a (x ∷ xs) h (f, u) = elim (Bool-cases (o.le a x)) [
    | inl b ↦ rw b (h, (f, u))
    | inr b ↦ rw b (
      ground (arith, member-place a x xs, h, f, beq_swap a x),
      place-Unique a xs (ground arith) u,
    )
  ]

  sort_by-Unique : (xs : List A) → Unique xs → Unique (sort_by xs)
  unfolding sort_by
  sort_by-Unique [] u = tt
  sort_by-Unique (x ∷ xs) (f, u) =
      place-Unique x (sort_by xs) (member-sort_by xs x ∙ f) (sort_by-Unique xs u)

  pub sort_by-Sorts : Sorts o sort_by
  sort_by-Sorts = record {
    in_order = sort_by-Sorted;
    members = member-sort_by;
    stays_unique = sort_by-Unique;
  }

-- Strings in the order of their bytes.
unfoldable pub text_le : Text → Text → Bool
text_le [] t = true
text_le (a ∷ s) [] = false
text_le (a ∷ s) (b ∷ t) = let rest = text_le s t in if a == b then rest else ltb a b

pub text_le-total : (s t : Text) → text_le s t ≡ false → text_le t s ≡ true
unfolding text_le
text_le-total [] t h = absurd (cc)
text_le-total (a ∷ s) [] h = refl
text_le-total (a ∷ s) (b ∷ t) h = ground (arith, text_le-total s t)

pub text_le_trans : (s t u : Text) → text_le s t ≡ true → text_le t u ≡ true → text_le s u ≡ true
unfolding text_le
text_le_trans [] t u h k = refl
text_le_trans (a ∷ s) [] u h k = absurd (cc)
text_le_trans (a ∷ s) (b ∷ t) [] h k = absurd (cc)
text_le_trans (a ∷ s) (b ∷ t) (c ∷ u) h k = ground (arith, text_le_trans s t u)

pub text_le-antisym : (s t : Text) → text_le s t ≡ true → text_le t s ≡ true → s ≡ t
unfolding text_le
text_le-antisym [] [] h k = refl
text_le-antisym [] (b ∷ t) h k = absurd (cc)
text_le-antisym (a ∷ s) [] h k = absurd (cc)
text_le-antisym (a ∷ s) (b ∷ t) h k = ground (arith, text_le-antisym s t)

abbrev pub text_order : TotalOrder Text
text_order = record {
  le = text_le;
  total = text_le-total;
  trans = text_le_trans;
  antisym = text_le-antisym;
}
