-- ===== src/Sets/Algebra.antt =====
-- The operations on sets are the Boolean ones on their membership.
use authzsdk.Prelude.{
  ◌≡◌, ◌↔◌, inl, inr, List, [], Bool, true, not, ◌&&◌, ◌||◌, ltb, Bool-cases, arith, Eq, member,
  member-remove, length-Unique-le,
}
use authzsdk.Sets.{
  Set, new_set, size, is_in, equal, insert, evict, copy_if, difference, is_superset_of,
  symmetric_difference, intersection, union,
}
use authzsdk.Sets.Elements.{
  IsKeyed, member-put_all, put_all-Unique, member-copy_if, copy_if-Unique, remove-Unique,
  all_members-subset, subset-all_members, whole, no_members, empty_of_no_members,
}

module _ {A : Type 0} ⦃e : Eq A⦄ where
  -- The set that implements a predicate: its keys stand once, and are what the predicate holds of.
  pub record Implements (s : Set A) (f : A → Bool) : Type 0 where
    pub is_set : IsKeyed s
    pub members : (a : A) → is_in s a ≡ f a

  pub new_set-Implements :
      (sorter : List A → List A) (xs : List A) → Implements (new_set sorter xs) (member xs)
  unfolding new_set member
  new_set-Implements sorter xs = record {
    is_set = put_all-Unique [] xs tt;
    members = λ a. ground (arith, member-put_all [] xs a);
  }

  module _ (s t : Set A) (f g : A → Bool) (p : Implements s f) (q : Implements t g) where
    insert-Implements : (xs : List A) → Implements (insert s xs) (λ a. member xs a || f a)
    unfolding insert
    insert-Implements xs = record {
      is_set = put_all-Unique s.elements xs p.is_set;
      members = λ a. ground (arith, member-put_all s.elements xs a, p.members a);
    }

    difference-Implements : Implements (difference s t) (λ a. f a && not (g a))
    unfolding difference member
    difference-Implements = record {
      is_set = copy_if-Unique _ s.elements [] tt;
      members = λ a.
          ground (
            arith,
            member-copy_if (λ b. not (is_in t b)) s.elements [] a,
            p.members a,
            q.members a,
          );
    }

    union-Implements : Implements (union s t) (λ a. f a || g a)
    unfolding union member
    union-Implements = record {
      is_set =
          copy_if-Unique (λ b. true) t.elements _ (copy_if-Unique (λ b. true) s.elements [] tt);
      members = λ a. ground (
        arith,
        member-copy_if (λ b. true) t.elements (copy_if (λ b. true) s.elements []) a,
        member-copy_if (λ b. true) s.elements [] a,
        p.members a,
        q.members a,
      );
    }

    intersection-Implements : Implements (intersection s t) (λ a. f a && g a)
    unfolding intersection member
    intersection-Implements = elim (Bool-cases (ltb (size t) (size s))) [
      | inl h ↦ rw h (record {
        is_set = copy_if-Unique _ t.elements [] tt;
        members =
            λ a. ground (arith, member-copy_if (is_in s) t.elements [] a, p.members a, q.members a);
      })
      | inr h ↦ rw h (record {
        is_set = copy_if-Unique _ s.elements [] tt;
        members =
            λ a. ground (arith, member-copy_if (is_in t) s.elements [] a, p.members a, q.members a);
      })
    ]

    symmetric_difference-Implements :
        Implements (symmetric_difference s t) (λ a. f a && not (g a) || g a && not (f a))
    unfolding symmetric_difference difference member
    symmetric_difference-Implements = record {
      is_set =
          put_all-Unique _ (difference t s).elements
            (copy_if-Unique (λ b. not (is_in t b)) s.elements [] tt);
      members = λ a. ground (
        arith,
        member-put_all (difference s t).elements (difference t s).elements a,
        member-copy_if (λ b. not (is_in t b)) s.elements [] a,
        member-copy_if (λ b. not (is_in s b)) t.elements [] a,
        p.members a,
        q.members a,
      );
    }

    evict-Implements : (a : A) → Implements (evict s a).0 (λ b. not (e.beq a b) && f b)
    unfolding evict
    evict-Implements a = record {
      is_set = remove-Unique a s.elements p.is_set;
      members = λ b. ground (arith, member-remove a b s.elements, p.members b);
    }

    -- Equal compares the predicates.
    pub equal_iff : (equal s t ≡ true) ↔ ((a : A) → f a ≡ g a)
    unfolding equal
    equal_iff = (
      (λ h a.
          let sub = all_members-subset s.elements t.elements (ground (arith, h)) in
          ground (
            arith,
            p.members a,
            q.members a,
            sub a,
            whole s.elements t.elements p.is_set (ground (arith, h)) sub a,
          )),
      λ h.
          let sub : (a : A) → member s.elements a ≡ true → member t.elements a ≡ true =
            λ a m. ground (arith, p.members a, q.members a, h a) in
          let sup : (a : A) → member t.elements a ≡ true → member s.elements a ≡ true =
            λ a m. ground (arith, p.members a, q.members a, h a) in
          ground (
            arith,
            length-Unique-le s.elements t.elements p.is_set sub,
            length-Unique-le t.elements s.elements q.is_set sup,
            subset-all_members s.elements t.elements sub,
          ),
    )

module _ {A : Type 0} ⦃e : Eq A⦄ (s t : Set A) (f g : A → Bool) (p : Implements s f)
    (q : Implements t g) where
  -- IsSupersetOf is implication, in spite of its test of the sizes.
  is_superset_of_iff : (is_superset_of s t ≡ true) ↔ ((a : A) → g a ≡ true → f a ≡ true)
  unfolding is_superset_of
  is_superset_of_iff =
      let d = difference-Implements t s g f q p in
      (
        (λ h a k.
            ground
              (arith, no_members (difference t s).elements (ground (arith, h)) a, d.members a, k)),
        λ h.
            let sub : (a : A) → member t.elements a ≡ true → member s.elements a ≡ true =
              λ a m. ground (arith, p.members a, q.members a, h a) in
            ground (
              arith,
              length-Unique-le t.elements s.elements q.is_set sub,
              empty_of_no_members (difference t s).elements (λ a. ground (arith, d.members a, h a)),
            ),
      )

  -- The operations of the type Set, on any two sets, implement the Boolean algebra of predicates.
  pub record Refines : Type 0 where
    pub inserted : (xs : List A) → Implements (insert s xs) (λ a. member xs a || f a)
    pub evicted : (a : A) → Implements (evict s a).0 (λ b. not (e.beq a b) && f b)
    pub was_in : (a : A) → (evict s a).1 ≡ f a
    pub less : Implements (difference s t) (λ a. f a && not (g a))
    pub either : Implements (symmetric_difference s t) (λ a. f a && not (g a) || g a && not (f a))
    pub common : Implements (intersection s t) (λ a. f a && g a)
    pub all : Implements (union s t) (λ a. f a || g a)
    pub same : (equal s t ≡ true) ↔ ((a : A) → f a ≡ g a)
    pub superset : (is_superset_of s t ≡ true) ↔ ((a : A) → g a ≡ true → f a ≡ true)

  -- Of two sets that implement predicates: what each operation returns implements the predicate that
  -- the Boolean operation makes of them, and every key stands once; Equal is equality of the
  -- predicates, and IsSupersetOf implication.
  pub set_operations-Refines : Refines
  unfolding evict
  set_operations-Refines = record {
    inserted = insert-Implements s t f g p q;
    evicted = evict-Implements s t f g p q;
    was_in = λ a. p.members a;
    less = difference-Implements s t f g p q;
    either = symmetric_difference-Implements s t f g p q;
    common = intersection-Implements s t f g p q;
    all = union-Implements s t f g p q;
    same = equal_iff s t f g p q;
    superset = is_superset_of_iff;
  }
