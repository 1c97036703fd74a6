-- ===== src/Idp/Components.antt =====
-- Which components of access policies Validate accepts.
use authzsdk.Prelude.{
  ◌≡◌, ◌↔◌, refl, Option, none, some, Bool, true, false, not, ◌&&◌, ◌||◌, Text, arith, is_some,
}
use authzsdk.Idp.Resources.{ResourceId, is_empty, validate_resource_id}
use authzsdk.Idp.Policies.{AccessPolicyComponent, valid, panics, validate_component}

-- An unset resource ID is one without ID and name.
abbrev pub is_set : (Text → Bool) → ResourceId → Bool
is_set is_nil r = not (is_nil r.id) || not (is_empty r.name)

-- Of a component whose two pointers are given, Validate asks for exactly one resource that is set, and for
-- parameters that are empty, or, with a template, a dictionary.
abbrev pub acceptable : (Text → Bool) → (Text → Bool) → ResourceId → ResourceId → Text → Bool
acceptable is_nil is_dictionary p t parameters =
    is_set is_nil p && not (is_set is_nil t) && is_empty parameters
    || not (is_set is_nil p) && is_set is_nil t && (is_empty parameters || is_dictionary parameters)

abbrev pub is_acceptable : (Text → Bool) → (Text → Bool) → AccessPolicyComponent → Bool
is_acceptable is_nil is_dictionary a = elim a.policy [
  | none ↦ false
  | some p ↦ elim a.template [
    | none ↦ false
    | some t ↦ acceptable is_nil is_dictionary p t a.template_parameters
  ]
]

module _ (is_nil is_dictionary : Text → Bool) where
  abbrev component : Option ResourceId → Option ResourceId → Text → AccessPolicyComponent
  component p t parameters = record { policy = p; template = t; template_parameters = parameters }

  abbrev Classified : AccessPolicyComponent → Type 0
  Classified a =
      ((validate_component is_nil is_dictionary a ≡ panics)
        ↔ (is_some a.policy && is_some a.template ≡ false))
      × ((validate_component is_nil is_dictionary a ≡ valid)
          ↔ (is_acceptable is_nil is_dictionary a ≡ true))

  by_pointers :
      (p t : Option ResourceId) (parameters : Text) → Classified (component p t parameters)
  unfolding validate_component validate_resource_id
  by_pointers none t parameters = ((λ h. refl, λ h. refl), (λ h. absurd (cc), λ h. absurd (cc)))
  by_pointers (some p) none parameters =
      ((λ h. refl, λ h. refl), (λ h. absurd (cc), λ h. absurd (cc)))
  by_pointers (some p) (some t) parameters =
      ((λ h. absurd (ground arith), λ h. absurd (cc)), (λ h. ground arith, λ h. ground arith))

  -- Validate of a component panics exactly if the policy or the template is a nil pointer, and returns no
  -- error exactly if both are given, one of them is set, and the parameters fit the one that is: so a
  -- component of only one of the two is never accepted.
  pub validate_component_iff :
      (a : AccessPolicyComponent)
      → ((validate_component is_nil is_dictionary a ≡ panics)
          ↔ (is_some a.policy && is_some a.template ≡ false))
        × ((validate_component is_nil is_dictionary a ≡ valid)
            ↔ (is_acceptable is_nil is_dictionary a ≡ true))
  validate_component_iff a = by_pointers a.policy a.template a.template_parameters
