-- ===== src/Sets/Elements.antt =====
-- The loops over the keys of a map: what they hold, and that each key stands once.
use authzsdk.Prelude.{
  ◌≡◌, refl, ap, inl, inr, List, [], ◌∷◌, Bool, true, false, ◌&&◌, ◌||◌, length, ◌==◌, Bool-cases,
  arith, Eq, member, remove, Unique, member_of_beq, member-remove, beq_refl, length-Unique-le,
}
use authzsdk.Sets.{Set, put, put_all, all_members, copy_if}

module _ {A : Type 0} ⦃e : Eq A⦄ where
  -- Every key of a map stands once.
  abbrev pub IsKeyed : Set A → Type 0
  IsKeyed s = Unique s.elements

  pub member-put : (xs : List A) (a b : A) → member (put xs a) b ≡ (e.beq a b || member xs b)
  unfolding put member
  member-put xs a b = ground (arith, λ (h : e.beq a b ≡ true). member_of_beq xs a b h)

  pub put-Unique : (xs : List A) (a : A) → Unique xs → Unique (put xs a)
  unfolding put
  put-Unique xs a u = elim (Bool-cases (member xs a)) [ inl h ↦ rw h u | inr h ↦ rw h (h, u) ]

  pub member-put_all :
      (xs ys : List A) (b : A) → member (put_all xs ys) b ≡ (member ys b || member xs b)
  unfolding put_all member
  member-put_all xs [] b = refl
  member-put_all xs (a ∷ ys) b = ground (arith, member-put_all (put xs a) ys b, member-put xs a b)

  pub put_all-Unique : (xs ys : List A) → Unique xs → Unique (put_all xs ys)
  unfolding put_all
  put_all-Unique xs [] u = u
  put_all-Unique xs (a ∷ ys) u = put_all-Unique (put xs a) ys (put-Unique xs a u)

  pub member-copy_if :
      (test : A → Bool) (xs output : List A) (b : A)
      → member (copy_if test xs output) b ≡ (member xs b && test b || member output b)
  unfolding copy_if member
  member-copy_if test [] output b = refl
  member-copy_if test (a ∷ xs) output b = ground (
    arith,
    member-copy_if test xs (put output a) b,
    member-copy_if test xs output b,
    member-put output a b,
    λ (h : e.beq a b ≡ true). ap test ((e.beq_iff a b).0 h),
  )

  pub copy_if-Unique :
      (test : A → Bool) (xs output : List A) → Unique output → Unique (copy_if test xs output)
  unfolding copy_if
  copy_if-Unique test [] output u = u
  copy_if-Unique test (a ∷ xs) output u = elim (Bool-cases (test a)) [
    | inl h ↦ rw h (copy_if-Unique test xs (put output a) (put-Unique output a u))
    | inr h ↦ rw h (copy_if-Unique test xs output u)
  ]

  pub remove-Unique : (a : A) (xs : List A) → Unique xs → Unique (remove a xs)
  unfolding remove
  remove-Unique a [] u = tt
  remove-Unique a (x ∷ xs) (h, u) = elim (Bool-cases (e.beq x a)) [
    | inl b ↦ rw b (remove-Unique a xs u)
    | inr b ↦ rw b (ground (arith, member-remove a x xs), remove-Unique a xs u)
  ]

  pub all_members-subset :
      (xs ys : List A)
      → all_members xs ys ≡ true
      → (a : A) → member xs a ≡ true
      → member ys a ≡ true
  unfolding all_members member
  all_members-subset [] ys h a m = absurd (cc)
  all_members-subset (x ∷ xs) ys h a m = ground (
    arith,
    (λ (k : all_members xs ys ≡ true) (n : member xs a ≡ true). all_members-subset xs ys k a n),
    λ (b : e.beq x a ≡ true). member_of_beq ys x a b,
  )

  pub subset-all_members :
      (xs ys : List A)
      → ((a : A) → member xs a ≡ true → member ys a ≡ true)
      → all_members xs ys ≡ true
  unfolding all_members member
  subset-all_members [] ys s = refl
  subset-all_members (x ∷ xs) ys s =
      ground (arith, s x, beq_refl x, subset-all_members xs ys (λ a m. s a (ground (arith, m))))

  -- A subset with as many elements is the whole set.
  pub whole :
      (xs ys : List A)
      → Unique xs
      → length xs ≡ length ys
      → ((a : A) → member xs a ≡ true → member ys a ≡ true)
      → (b : A) → member ys b ≡ true
      → member xs b ≡ true
  unfolding member
  whole xs ys u l s b m = elim (Bool-cases (member xs b)) [
    | inl h ↦ h
    | inr h ↦ absurd (
        omega (
          arith,
          l,
          length-Unique-le (b ∷ xs) ys (h, u)
              (λ a k. ground (arith, s a, λ (c : e.beq b a ≡ true). member_of_beq ys b a c)),
        ))
  ]

  pub no_members : (xs : List A) → (length xs == 0) ≡ true → (a : A) → member xs a ≡ false
  unfolding member
  no_members [] h a = refl
  no_members (x ∷ xs) h a = absurd (ground arith)

  pub empty_of_no_members :
      (xs : List A) → ((a : A) → member xs a ≡ false) → (length xs == 0) ≡ true
  unfolding member
  empty_of_no_members [] h = refl
  empty_of_no_members (x ∷ xs) h = absurd (ground (arith, h x, beq_refl x))
