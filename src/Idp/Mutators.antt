-- ===== src/Idp/Mutators.antt =====
-- Which columns of a mutator its validation accepts.
use authzsdk.Prelude.{
  ℕ, suc, ◌+◌, ◌≤◌, ◌≡◌, ◌↔◌, refl, ◌∙◌, inl, inr, none, some, List, [], ◌∷◌, Bool, true, false,
  ◌&&◌, ◌||◌, Text, ◌==◌, if◌then◌else◌, length, arith, Bool-cases,
}
use authzsdk.Idp.Accessors.{ColumnInputConfig, is_given, count_columns, column_error}

module _ (is_nil : Text → Bool) where
  abbrev pub all_columns : (ColumnInputConfig → Bool) → List ColumnInputConfig → Bool
  all_columns test [] = true
  all_columns test (v ∷ vs) = test v && all_columns test vs

  count_if : (ColumnInputConfig → Bool) → List ColumnInputConfig → ℕ
  count_if test [] = 0
  count_if test (v ∷ vs) = (if test v then 1 else 0) + count_if test vs

  count_if-le :
      (test : ColumnInputConfig → Bool) (vs : List ColumnInputConfig) → count_if test vs ≤ length vs
  unfolding count_if
  count_if-le test [] = omega arith
  count_if-le test (v ∷ vs) = ground (arith, count_if-le test vs)

  count_if-all :
      (test : ColumnInputConfig → Bool) (vs : List ColumnInputConfig)
      → (count_if test vs == length vs) ≡ all_columns test vs
  unfolding count_if
  count_if-all test [] = refl
  count_if-all test (v ∷ vs) = ground (arith, count_if-all test vs, count_if-le test vs)

  add_if : (b : Bool) (n k : ℕ) → (if b then suc n else n) + k ≡ n + ((if b then 1 else 0) + k)
  add_if true n k = omega arith
  add_if false n k = omega arith

  add_zero : (n : ℕ) → n ≡ n + 0
  add_zero n = omega arith

  count_columns_lem :
      (n m : ℕ) (vs : List ColumnInputConfig)
      → count_columns is_nil n m vs ≡ (
          if all_columns (λ v. is_given is_nil v.column) vs
          then some (
            n + count_if (λ v. is_given is_nil v.normalizer) vs,
            m + count_if (λ v. is_given is_nil v.validator) vs,
          )
          else none)
  unfolding count_columns count_if
  count_columns_lem n m [] = λ i. some (add_zero n i, add_zero m i)
  count_columns_lem n m (v ∷ vs) =
      let normal = is_given is_nil v.normalizer in
      let valid = is_given is_nil v.validator in
      elim (Bool-cases (is_given is_nil v.column)) [
        | inr h ↦ rw h refl
        | inl h ↦ rw h (
            count_columns_lem (if normal then suc n else n) (if valid then suc m else m) vs ∙ (λ i.
              if all_columns (λ w. is_given is_nil w.column) vs
              then some (
                add_if normal n (count_if (λ w. is_given is_nil w.normalizer) vs) i,
                add_if valid m (count_if (λ w. is_given is_nil w.validator) vs) i,
              )
              else none))
      ]

  -- The loop over the columns of a mutator, and the test of its counters, accept them exactly if each
  -- has a column, and all have a normalizer or all have a validator: columns of which some have only a
  -- normalizer and the others only a validator are refused.
  pub column_error_iff :
      (vs : List ColumnInputConfig)
      → (column_error is_nil (length vs) (count_columns is_nil 0 0 vs) ≡ none) ↔ (
          all_columns (λ v. is_given is_nil v.column) vs
            && (all_columns (λ v. is_given is_nil v.normalizer) vs
                || all_columns (λ v. is_given is_nil v.validator) vs)
          ≡ true)
  column_error_iff vs =
      let normal = count_if-all (λ v. is_given is_nil v.normalizer) vs in
      let valid = count_if-all (λ v. is_given is_nil v.validator) vs in
      elim (Bool-cases (all_columns (λ v. is_given is_nil v.column) vs)) [
        | inr h ↦ (
          (λ k. absurd (ground (arith, h, k, count_columns_lem 0 0 vs))),
          λ k. absurd (ground (arith, h, k)),
        )
        | inl h ↦ (
          (λ k. ground (arith, h, k, count_columns_lem 0 0 vs, normal, valid)),
          λ k. ground (arith, h, k, count_columns_lem 0 0 vs, normal, valid),
        )
      ]
