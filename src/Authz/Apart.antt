-- ===== src/Authz/Apart.antt =====
-- Which names of keys are apart.
use authzsdk.Prelude.{
  ◌≡◌, refl, ap, sym, ◌∙◌, inl, inr, Option, none, some, [], ◌∷◌, ◌++◌, Bool, true, not, ◌&&◌, Text,
  lit, ◌==◌, text_eq, is_some, arith, if◌then◌else◌, Option-cases,
}
use authzsdk.Authz.KeyNames.{
  KeyNameId, get_key_name, joined, object_type_key_id, edge_type_key_id, object_key_id, edge_key_id,
  organization_key_id, obj_edges_key_id, dependency_key_id, is_modified_key_id,
}

-- The prefix of the names that hold one ID.
abbrev prefix_of : KeyNameId → Option Text
prefix_of object_type_key_id = some (lit "OBJTYPE")
prefix_of edge_type_key_id = some (lit "EDGETYPE")
prefix_of object_key_id = some (lit "OBJ")
prefix_of edge_key_id = some (lit "EDGE")
prefix_of organization_key_id = some (lit "ORG")
prefix_of obj_edges_key_id = some (lit "OBJEDGES")
prefix_of dependency_key_id = some (lit "DEP")
prefix_of is_modified_key_id = some (lit "MOD")
prefix_of _ = none

-- The key IDs whose name is a prefix of their own and one ID.
abbrev pub NamesOneId : KeyNameId → Type 0
NamesOneId k = is_some (prefix_of k) ≡ true

kind_of : Text → KeyNameId
kind_of s =
    if text_eq s (lit "OBJTYPE")
    then object_type_key_id
    else if text_eq s (lit "EDGETYPE")
    then edge_type_key_id
    else if text_eq s (lit "OBJ")
    then object_key_id
    else if text_eq s (lit "EDGE")
    then edge_key_id
    else if text_eq s (lit "ORG")
    then organization_key_id
    else if text_eq s (lit "OBJEDGES")
    then obj_edges_key_id
    else if text_eq s (lit "DEP")
    then dependency_key_id
    else is_modified_key_id

no_underscore : Text → Bool
no_underscore [] = true
no_underscore (c ∷ s) = not (c == b'_') && no_underscore s

some_injective : {A : Type 0} {a b : A} → some a ≡ some b → a ≡ b
some_injective e = cc

prefix_facts :
    (k : KeyNameId) (u : Text)
    → prefix_of k ≡ some u
    → ((kind_of u ≡ k) × (no_underscore u ≡ true))
      × ((base i : Text) → get_key_name base k (i ∷ []) ≡ some (base ++ joined (u ∷ i ∷ [])))
unfolding get_key_name kind_of no_underscore text_eq
prefix_facts object_type_key_id u e = rw (sym (some_injective e)) ((refl, refl), λ base i. refl)
prefix_facts edge_type_key_id u e = rw (sym (some_injective e)) ((refl, refl), λ base i. refl)
prefix_facts object_key_id u e = rw (sym (some_injective e)) ((refl, refl), λ base i. refl)
prefix_facts edge_key_id u e = rw (sym (some_injective e)) ((refl, refl), λ base i. refl)
prefix_facts organization_key_id u e = rw (sym (some_injective e)) ((refl, refl), λ base i. refl)
prefix_facts obj_edges_key_id u e = rw (sym (some_injective e)) ((refl, refl), λ base i. refl)
prefix_facts dependency_key_id u e = rw (sym (some_injective e)) ((refl, refl), λ base i. refl)
prefix_facts is_modified_key_id u e = rw (sym (some_injective e)) ((refl, refl), λ base i. refl)
prefix_facts _ u e = absurd (cc)

append_cancel : (b s t : Text) → b ++ s ≡ b ++ t → s ≡ t
append_cancel [] s t e = e
append_cancel (c ∷ b) s t e = append_cancel b s t (cc)

-- The text before the first underscore, and the one behind it.
underscore_split :
    (u v s t : Text)
    → no_underscore u ≡ true
    → no_underscore v ≡ true
    → u ++ (b'_' ∷ s) ≡ v ++ (b'_' ∷ t)
    → (u ≡ v) × (s ≡ t)
unfolding no_underscore
underscore_split [] [] s t h k e = (refl, cc)
underscore_split [] (d ∷ v) s t h k e = absurd (ground (arith, e))
underscore_split (c ∷ u) [] s t h k e = absurd (ground (arith, e))
underscore_split (c ∷ u) (d ∷ v) s t h k e =
    let (a, b) = underscore_split u v s t (ground arith) (ground arith) (cc) in (cc, b)

append_nil : (s t : Text) → s ++ [] ≡ t ++ [] → s ≡ t
append_nil [] [] e = refl
append_nil [] (d ∷ t) e = absurd (cc)
append_nil (c ∷ s) [] e = absurd (cc)
append_nil (c ∷ s) (d ∷ t) e = ground (arith, append_nil s t)

-- Under one base, two keys that hold one ID behind a prefix of their kind are equal only if kind and
-- ID are: those of object types, edge types, objects, edges, organizations, an object's edges,
-- dependencies and modifications.
pub get_key_name-injective :
    (base i j : Text) (k l : KeyNameId)
    → NamesOneId k
    → NamesOneId l
    → get_key_name base k (i ∷ []) ≡ get_key_name base l (j ∷ [])
    → (k ≡ l) × (i ≡ j)
get_key_name-injective base i j k l a b e = elim (Option-cases (prefix_of k)) [
  | inl n ↦ absurd (cc (a, n))
  | inr (u, pu) ↦ elim (Option-cases (prefix_of l)) [
    | inl n ↦ absurd (cc (b, n))
    | inr (v, pv) ↦
        let ((ku, nu), fu) = prefix_facts k u pu in
        let ((kv, nv), fv) = prefix_facts l v pv in
        let same_text = some_injective (sym (fu base i) ∙ (e ∙ fv base j)) in
        let without_base = append_cancel base _ _ same_text in
        let (uv, ij) = underscore_split u v (i ++ []) (j ++ []) nu nv (cc) in
        (sym ku ∙ (ap kind_of uv ∙ kv), append_nil i j ij)
  ]
]
