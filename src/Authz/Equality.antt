-- ===== src/Authz/Equality.antt =====
-- When the EqualsIgnoringID of edge types holds.
use authzsdk.Prelude.{
  suc, ◌≡◌, ◌↔◌, ◌≤◌, ◌<◌, refl, ap, sym, ◌∙◌, inl, inr, Option, none, some, List, [], ◌∷◌, Bool,
  true, false, Text, text_eq, eq_of_text_eq, text_eq_refl, text_eq_of_eq, length, ◌==◌, map, arith,
  Option-cases, member, Unique, member_of_beq, length-Unique-le, text_equality, is_some,
}
use authzsdk.Authz.Models.{
  Attribute, EdgeType, attribute_of, attribute_eq, all_in, same_flag, edge_type_equals,
}

abbrev pub names : List Attribute → List Text
names attributes = map (λ a. a.name) attributes

same_flag_lem : (a b : Bool) → same_flag a b ≡ true → a ≡ b
same_flag_lem true b h = sym h
same_flag_lem false false h = refl
same_flag_lem false true h = absurd (cc)

same_flag_refl : (a : Bool) → same_flag a a ≡ true
same_flag_refl true = refl
same_flag_refl false = refl

attribute_eq_lem : (a b : Attribute) → attribute_eq a b ≡ true → a ≡ b
unfolding attribute_eq
attribute_eq_lem a b h =
    let name = eq_of_text_eq a.name b.name (ground arith) in
    let direct = same_flag_lem a.direct b.direct (ground arith) in
    let inherit = same_flag_lem a.inherit b.inherit (ground arith) in
    let propagate = same_flag_lem a.propagate b.propagate (ground arith) in
    λ i. record { name = name i; direct = direct i; inherit = inherit i; propagate = propagate i }

attribute_eq_refl : (a : Attribute) → attribute_eq a a ≡ true
unfolding attribute_eq
attribute_eq_refl a = ground (
  arith,
  text_eq_refl a.name,
  same_flag_refl a.direct,
  same_flag_refl a.inherit,
  same_flag_refl a.propagate,
)

-- An attribute is found by its name.
name_of_found :
    (as1 : List Attribute) (n : Text) (a : Attribute) → attribute_of as1 n ≡ some a → a.name ≡ n
unfolding attribute_of
name_of_found [] n a h = absurd (cc)
name_of_found (b ∷ rest) n a h = elim (Option-cases (attribute_of rest n)) [
  | inl k ↦ ground (arith, eq_of_text_eq b.name n)
  | inr (c, k) ↦ name_of_found rest n a (ground (arith, h, k))
]

found_iff_member :
    (as1 : List Attribute) (n : Text) → is_some (attribute_of as1 n) ≡ member (names as1) n
unfolding attribute_of member
found_iff_member [] n = refl
found_iff_member (b ∷ rest) n = ground (arith, found_iff_member rest n)

length-names : (as1 : List Attribute) → length (names as1) ≡ length as1
length-names [] = refl
length-names (b ∷ rest) = ap suc (length-names rest)

none_of_not_some : (o : Option Attribute) → is_some o ≡ false → o ≡ none
none_of_not_some none h = refl
none_of_not_some (some a) h = absurd (cc)

-- The two lists of attributes find the same by every name.
abbrev pub SameAttributes : List Attribute → List Attribute → Type 0
SameAttributes these others = (n : Text) → attribute_of these n ≡ attribute_of others n

all_in-found :
    (these others : List Attribute)
    → all_in these others ≡ true
    → (n : Text) (a : Attribute) → attribute_of these n ≡ some a
    → attribute_of others n ≡ some a
unfolding all_in attribute_of
all_in-found [] others h n a k = absurd (cc)
all_in-found (b ∷ rest) others h n a k = elim (Option-cases (attribute_of rest n)) [
  | inr (c, f) ↦ all_in-found rest others (ground arith) n a (ground (arith, f, k))
  | inl f ↦
      let named : b.name ≡ n = eq_of_text_eq b.name n (ground (arith, f, k)) in
      elim (Option-cases (attribute_of others b.name)) [
        | inl g ↦ absurd (ground (arith, g, h))
        | inr (c, g) ↦
            let same = attribute_eq_lem c b (ground (arith, g, h)) in
            let this : b ≡ a = ground (arith, f, k, text_eq_of_eq b.name n named) in
            sym (ap (attribute_of others) named) ∙ (g ∙ ap some (same ∙ this))
      ]
]

found-all_in :
    (these others : List Attribute)
    → ((n : Text) (a : Attribute) → attribute_of these n ≡ some a → attribute_of others n ≡ some a)
    → Unique (names these)
    → all_in these others ≡ true
unfolding all_in attribute_of
found-all_in [] others h u = refl
found-all_in (b ∷ rest) others h (fresh, u) =
    let gone : attribute_of rest b.name ≡ none =
      none_of_not_some _ (found_iff_member rest b.name ∙ fresh) in
    let found : attribute_of others b.name ≡ some b =
      h b.name b (ground (arith, gone, text_eq_refl b.name)) in
    ground (
      arith,
      found,
      attribute_eq_refl b,
      found-all_in rest others (λ n a k. h n a (ground (arith, k))) u,
    )

abbrev Found : List Attribute → List Attribute → Type 0
Found these others =
    (n : Text) (a : Attribute) → attribute_of these n ≡ some a → attribute_of others n ≡ some a

names_found :
    (these others : List Attribute)
    → Found these others
    → (n : Text) → member (names these) n ≡ true
    → member (names others) n ≡ true
names_found these others f n m = elim (Option-cases (attribute_of these n)) [
  | inl k ↦ absurd (cc (found_iff_member these n, k, m))
  | inr (a, k) ↦ sym (found_iff_member others n) ∙ ap is_some (f n a k)
]

length-le :
    (these others : List Attribute)
    → Unique (names these)
    → Found these others
    → length these ≤ length others
length-le these others u f = omega (
  arith,
  length-names these,
  length-names others,
  length-Unique-le (names these) (names others) u (names_found these others f),
)

-- A name that only the other list has makes it the longer one.
length-lt :
    (these others : List Attribute) (n : Text)
    → Unique (names these)
    → Found these others
    → member (names these) n ≡ false
    → member (names others) n ≡ true
    → length these < length others
unfolding member
length-lt these others n u f gone there = omega (
  arith,
  length-names these,
  length-names others,
  length-Unique-le (n ∷ names these) (names others) (gone, u)
      (λ x m. ground (
        arith,
        m,
        there,
        names_found these others f x,
        λ (h : text_eq n x ≡ true). member_of_beq (names others) n x h,
      )),
)

-- Of two types whose attributes have distinct names, and are as many, the test on the attributes
-- holds exactly if both lists find the same by every name.
all_in_iff :
    (these others : List Attribute)
    → Unique (names these)
    → Unique (names others)
    → (((length these == length others) ≡ true) × (all_in these others ≡ true))
      ↔ SameAttributes these others
all_in_iff these others u v = (
  (λ p n. elim (Option-cases (attribute_of these n)) [
    | inr (a, k) ↦ k ∙ sym (all_in-found these others p.1 n a k)
    | inl k ↦ elim (Option-cases (attribute_of others n)) [
      | inl g ↦ k ∙ sym g
      | inr (b, g) ↦ absurd (
          ground (
            arith,
            p.0,
            length-lt these others n u (all_in-found these others p.1)
                (sym (found_iff_member these n) ∙ ap is_some k)
                (sym (found_iff_member others n) ∙ ap is_some g),
          ))
    ]
  ]),
  λ s. (
    ground (
      arith,
      length-le these others u (λ n a k. sym (s n) ∙ k),
      length-le others these v (λ n a k. s n ∙ k),
    ),
    found-all_in these others (λ n a k. sym (s n) ∙ k) u,
  ),
)

-- Where the attributes of each of two edge types have distinct names, EqualsIgnoringID holds exactly
-- if name, ends and organization are equal and the two find the same attribute, or none, by every
-- name, in whatever order they list them.
pub edge_type_equals_iff :
    (e other : EdgeType)
    → Unique (names e.attributes)
    → Unique (names other.attributes)
    → (edge_type_equals e other ≡ true) ↔ (
        ((e.type_name ≡ other.type_name) × (e.source_object_type_id ≡ other.source_object_type_id))
        × ((e.target_object_type_id ≡ other.target_object_type_id)
            × ((e.organization_id ≡ other.organization_id)
                × SameAttributes e.attributes other.attributes)))
unfolding edge_type_equals
edge_type_equals_iff e other u v =
    let (to, from) = all_in_iff e.attributes other.attributes u v in
    (
      (λ h. (
        (eq_of_text_eq _ _ (ground (arith, h)), eq_of_text_eq _ _ (ground (arith, h))),
        (
          eq_of_text_eq _ _ (ground (arith, h)),
          (eq_of_text_eq _ _ (ground (arith, h)), to (ground (arith, h), ground (arith, h))),
        ),
      )),
      λ ((n, s), (t, (o, a))).
          let (l, i) = from a in
          ground (
            arith,
            text_eq_of_eq _ _ n,
            text_eq_of_eq _ _ s,
            text_eq_of_eq _ _ t,
            text_eq_of_eq _ _ o,
            l,
            i,
          ),
    )
