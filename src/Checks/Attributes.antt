-- ===== src/Checks/Attributes.antt =====
-- EqualsIgnoringID of edge types at concrete types.
use authzsdk.Prelude.{
  ◌≡◌, ◌↔◌, refl, lit, [], ◌∷◌, List, true, false, text_eq, member, text_equality,
}
use authzsdk.Authz.Models.{
  Attribute, EdgeType, edge_type_equals, all_in, attribute_of, attribute_eq,
}
use authzsdk.Authz.Equality.{edge_type_equals_iff, SameAttributes}

abbrev viewer : Attribute
viewer = record { name = lit "view"; direct = true; inherit = false; propagate = false }

abbrev editor : Attribute
editor = record { name = lit "edit"; direct = true; inherit = false; propagate = false }

abbrev inherited : Attribute
inherited = record { name = lit "view"; direct = false; inherit = true; propagate = false }

abbrev edge_type : List Attribute → EdgeType
edge_type attributes = record {
  base = record { id = lit "1"; created = 1; updated = 1; deleted = 0 };
  type_name = lit "member";
  source_object_type_id = lit "2";
  target_object_type_id = lit "3";
  attributes = attributes;
  organization_id = lit "4";
}

-- With two attributes of one name a type does not equal itself.
not_reflexive :
    edge_type_equals (edge_type (viewer ∷ inherited ∷ [])) (edge_type (viewer ∷ inherited ∷ []))
    ≡ false
unfolding edge_type_equals all_in attribute_of attribute_eq text_eq
not_reflexive = refl

-- Nor is the test symmetric.
holds_one_way :
    edge_type_equals (edge_type (viewer ∷ viewer ∷ [])) (edge_type (viewer ∷ editor ∷ [])) ≡ true
unfolding edge_type_equals all_in attribute_of attribute_eq text_eq
holds_one_way = refl

fails_the_other_way :
    edge_type_equals (edge_type (viewer ∷ editor ∷ [])) (edge_type (viewer ∷ viewer ∷ [])) ≡ false
unfolding edge_type_equals all_in attribute_of attribute_eq text_eq
fails_the_other_way = refl

edge_type_equals_iff_example :
    (edge_type_equals (edge_type (viewer ∷ editor ∷ [])) (edge_type (editor ∷ viewer ∷ [])) ≡ true)
    ↔ ((((lit "member" ≡ lit "member") × (lit "2" ≡ lit "2")))
        × ((lit "3" ≡ lit "3")
            × ((lit "4" ≡ lit "4") × SameAttributes (viewer ∷ editor ∷ []) (editor ∷ viewer ∷ []))))
unfolding member text_eq
edge_type_equals_iff_example =
    edge_type_equals_iff (edge_type (viewer ∷ editor ∷ [])) (edge_type (editor ∷ viewer ∷ []))
      (refl, (refl, tt)) (refl, (refl, tt))
