-- ===== src/Idp/RoundTrips.antt =====
-- The texts of the enumerations are read back.
use authzsdk.Prelude.{
  ◌≡◌, ◌↔◌, refl, ap, sym, subst, ◌∙◌, inl, inr, some, List, [], ◌∷◌, true, Text, text_eq,
  eq_of_text_eq, text_eq_refl, text_equality, member, Unique, map, is_some, Bool-cases, arith,
}
use authzsdk.Idp.Enums.{
  Enum, duration_unit, policy_type, transform_type, data_life_cycle_state, marshal_cases,
  unmarshal_cases, valid_values, switch, marshal_text, unmarshal_text, validate_enum,
}

-- A case the other way round.
abbrev swapped : Text × Text → Text × Text
swapped (v, t) = (t, v)

abbrev values : List (Text × Text) → List Text
values cases = map (λ r. r.1) cases

switch-member :
    (cases : List (Text × Text)) (k v : Text)
    → switch cases k ≡ some v
    → member (values cases) v ≡ true
unfolding switch member
switch-member [] k v h = absurd (cc)
switch-member ((j, w) ∷ cases) k v h =
    ground (arith, h, switch-member cases k v, text_eq_refl v, text_eq_refl w)

-- A switch whose values are distinct is undone by the one of the swapped cases.
switch-swapped :
    (cases : List (Text × Text)) (k v : Text)
    → Unique (values cases)
    → switch cases k ≡ some v
    → switch (map swapped cases) v ≡ some k
unfolding switch
switch-swapped [] k v u h = absurd (cc)
switch-swapped ((j, w) ∷ cases) k v (n, u) h = elim (Bool-cases (text_eq j k)) [
  | inl b ↦ ground (arith, h, b, eq_of_text_eq j k b, text_eq_refl w, text_eq_refl v)
  | inr b ↦
      let later : switch cases k ≡ some v = ground (arith, h, b) in
      ground (
        arith,
        n,
        switch-member cases k v later,
        eq_of_text_eq w v,
        switch-swapped cases k v u later,
      )
]

swapped_twice : (cases : List (Text × Text)) → map swapped (map swapped cases) ≡ cases
swapped_twice [] = refl
swapped_twice ((v, t) ∷ cases) = ap (λ r. (v, t) ∷ r) (swapped_twice cases)

-- A switch with distinct keys and distinct values is a one to one relation, that of the swapped cases
-- turned round.
switch-swapped_iff :
    (cases : List (Text × Text)) (k v : Text)
    → Unique (values cases)
    → Unique (values (map swapped cases))
    → (switch cases k ≡ some v) ↔ (switch (map swapped cases) v ≡ some k)
switch-swapped_iff cases k v u w = (
  switch-swapped cases k v u,
  λ h.
      ap (λ r. switch r k) (sym (swapped_twice cases)) ∙ switch-swapped (map swapped cases) v k w h,
)

marshal_cases-Unique :
    (e : Enum) → Unique (values (marshal_cases e)) × Unique (values (map swapped (marshal_cases e)))
unfolding marshal_cases member text_eq
marshal_cases-Unique duration_unit = (
  (refl, (refl, (refl, (refl, (refl, (refl, tt)))))),
  (refl, (refl, (refl, (refl, (refl, (refl, tt)))))),
)
marshal_cases-Unique policy_type = ((refl, (refl, (refl, tt))), (refl, (refl, (refl, tt))))
marshal_cases-Unique transform_type =
    ((refl, (refl, (refl, (refl, tt)))), (refl, (refl, (refl, (refl, tt)))))
marshal_cases-Unique data_life_cycle_state =
    ((refl, (refl, (refl, (refl, (refl, tt))))), (refl, (refl, (refl, (refl, (refl, tt))))))

-- The switches of MarshalText and UnmarshalText have the same cases, the other way round.
unmarshal_cases-swapped : (e : Enum) → unmarshal_cases e ≡ map swapped (marshal_cases e)
unfolding unmarshal_cases marshal_cases
unmarshal_cases-swapped duration_unit = refl
unmarshal_cases-swapped policy_type = refl
unmarshal_cases-swapped transform_type = refl
unmarshal_cases-swapped data_life_cycle_state = refl

switch_known :
    (cases : List (Text × Text)) (k : Text)
    → is_some (switch cases k) ≡ member (map (λ (r : Text × Text). r.0) cases) k
unfolding switch member
switch_known [] k = refl
switch_known ((j, w) ∷ cases) k = ground (arith, switch_known cases k)

-- Validate accepts no value that has no text.
valid_values_known :
    (e : Enum) (v : Text)
    → validate_enum e v ≡ true
    → member (map (λ (r : Text × Text). r.0) (marshal_cases e)) v ≡ true
unfolding validate_enum valid_values marshal_cases member
valid_values_known duration_unit v h = h
valid_values_known policy_type v h = ground (arith, h)
valid_values_known transform_type v h = h
valid_values_known data_life_cycle_state v h = h

-- Of each enumeration, MarshalText gives a value a text exactly if UnmarshalText reads that text as the
-- value, and a value that Validate accepts has a text.
pub marshal_text-unmarshal_text :
    (e : Enum) (v s : Text)
    → ((marshal_text e v ≡ some s) ↔ (unmarshal_text e s ≡ some v))
      × (validate_enum e v ≡ true → is_some (marshal_text e v) ≡ true)
unfolding marshal_text unmarshal_text
marshal_text-unmarshal_text e v s =
    let (u, w) = marshal_cases-Unique e in
    (
      subst (λ cases. (switch (marshal_cases e) v ≡ some s) ↔ (switch cases s ≡ some v))
          (sym (unmarshal_cases-swapped e)) (switch-swapped_iff (marshal_cases e) v s u w),
      λ h. switch_known (marshal_cases e) v ∙ valid_values_known e v h,
    )
