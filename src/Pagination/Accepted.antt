-- ===== src/Pagination/Accepted.antt =====
-- What a paginator that `apply_options` accepts satisfies.
use authzsdk.Prelude.{
  first_error-none, refuse_if, refuse_if-none, ℕ, ◌≤◌, ◌≡◌, ◌≢◌, refl, ap, sym, subst, ◌∙◌, ◌⊎◌,
  inl, inr, ◌↔◌, Option, none, some, List, [], ◌∷◌, Bool, true, false, not, Text, lit, text_eq, ℤ,
  pos, negsuc, if◌then◌else◌, ◌==◌, split, arith, Bool-cases, Option-cases, is_some, eq_of_text_eq,
}
use authzsdk.Pagination.Types.{
  Order, order_ascending, order_descending, validate_order, validate_version,
  filter_query_unexpected, filter_not_parsed, filter_invalid,
}
use authzsdk.Pagination.Options.{Opt, Paginator, initial, is_empty, apply_each}
use authzsdk.Pagination.Pager.{
  classify_sort_keys, is_forward, checks, validate_cursor, validate_limit, validate_filter,
  validate, Result, pager, refused, stuck, with_defaults, with_filter_query, checked, apply_options,
  same,
}
use authzsdk.Pagination.SortKeys.{Distinct, Flags, classify_keys-Flags, classify_sort_keys-Distinct}
use authzsdk.Pagination.Filter.Nodes.{Heap}
use authzsdk.Pagination.Filter.Parser.{create_filter_query, Outcome, ok, err, panic, timeout}
use authzsdk.Pagination.Filter.Total.{Finished, create_filter_query-Finished}

-- What the checks of a paginator demand.
pub record IsAccepted (p : Paginator) : Type 0 where
  pub limit_bound : (n : ℕ) × ((p.limit ≡ pos n) × ((1 ≤ n) × (n ≤ 1500)))
  pub known_version : (p.version ≡ pos 2) ⊎ (p.version ≡ pos 3)
  pub known_order : (p.sort_order ≡ order_ascending) ⊎ (p.sort_order ≡ order_descending)
  pub one_direction : p.backward_direction_set ≡ not p.forward_direction_set
  pub sort_key_given : p.sort_key ≢ []
  pub sort_keys_fresh : p.any_duplicate_sort_keys ≡ false
  pub sort_keys_supported : p.any_unsupported_sort_keys ≡ false
  pub final_valid : p.final_sort_key_valid ≡ true
  pub filter_parsed : (p.filter ≡ []) ↔ (p.filter_query ≡ none)
  pub cursor_valid : validate_cursor p p.cursor ≡ none

not-false : (b : Bool) → not b ≡ false → b ≡ true
not-false true e = refl
not-false false e = cc

validate_limit-bound :
    (z : ℤ) → validate_limit z ≡ none → (n : ℕ) × ((z ≡ pos n) × ((1 ≤ n) × (n ≤ 1500)))
validate_limit-bound (pos n) e = (n, (refl, (ground (arith, e), ground (arith, e))))
validate_limit-bound (negsuc n) e = absurd (cc)

validate_version-known : (v : ℤ) → validate_version v ≡ none → (v ≡ pos 2) ⊎ (v ≡ pos 3)
unfolding validate_version
validate_version-known (pos n) e = elim (Bool-cases (n == 2)) [
  | inl b ↦ inl (ground arith)
  | inr b ↦ inr (ground arith)
]
validate_version-known (negsuc n) e = absurd (cc)

validate_order-known :
    (o : Order) → validate_order o ≡ none → (o ≡ order_ascending) ⊎ (o ≡ order_descending)
unfolding validate_order
validate_order-known o e = elim (Bool-cases (text_eq o order_ascending)) [
  | inl b ↦ inl (eq_of_text_eq _ _ b)
  | inr b ↦ inr (eq_of_text_eq _ _ (ground arith))
]

same-false : (a b : Bool) → same a b ≡ false → b ≡ not a
same-false true b e = e
same-false false false e = cc
same-false false true e = refl

is_empty_iff : (s : Text) → is_empty s ≡ false → s ≢ []
is_empty_iff [] e h = cc
is_empty_iff (c ∷ s) e h = cc

validate_filter-parsed :
    (p : Paginator) → validate_filter p ≡ none → (p.filter ≡ []) ↔ (p.filter_query ≡ none)
validate_filter-parsed p e = go p.filter p.filter_query e
  where
    go :
        (f : Text) (q : Option (Heap × ℕ))
        → (if is_empty f
            then refuse_if (is_some q) filter_query_unexpected
            else refuse_if (not (is_some q)) filter_not_parsed)
          ≡ none
        → (f ≡ []) ↔ (q ≡ none)
    go [] none e = ((λ _. refl), λ _. refl)
    go [] (some x) e = absurd (cc)
    go (c ∷ s) none e = absurd (cc)
    go (c ∷ s) (some x) e = ((λ h. absurd (cc)), λ h. absurd (cc))

-- The checks are all made: a paginator without an error is accepted.
validate-IsAccepted : (p : Paginator) → validate p ≡ none → IsAccepted p
unfolding validate checks
validate-IsAccepted p e =
    let (
      version,
      (
        limit,
        (
          order,
          (
            direction,
            (sort_key, (unsupported, (duplicate, (final, (filter, (keys, (cursor, _))))))),
          ),
        ),
      ),
    ) =
      first_error-none (checks p) e in
    record {
      limit_bound = validate_limit-bound p.limit limit;
      known_version = validate_version-known p.version version;
      known_order = validate_order-known p.sort_order order;
      one_direction = same-false _ _ (refuse_if-none _ _ direction);
      sort_key_given = is_empty_iff _ (refuse_if-none _ _ sort_key);
      sort_keys_fresh = refuse_if-none _ _ duplicate;
      sort_keys_supported = refuse_if-none _ _ unsupported;
      final_valid = not-false _ (refuse_if-none _ _ final);
      filter_parsed = validate_filter-parsed p filter;
      cursor_valid = cursor;
    }

-- What holds of a paginator before its validation: the flags tell of its own sort key and direction.
record IsClassified (p : Paginator) : Type 0 where
  pub distinct : p.any_duplicate_sort_keys ≡ false → Distinct (split p.sort_key (lit ","))
  pub heading : is_forward p ≡ p.forward_direction_set

with_defaults-heading :
    (p : Paginator) → is_forward (with_defaults p) ≡ (with_defaults p).forward_direction_set
unfolding with_defaults
with_defaults-heading p = ground arith

classify_sort_keys-Flags : (p : Paginator) → Flags p (classify_sort_keys p)
unfolding classify_sort_keys
classify_sort_keys-Flags p =
    classify_keys-Flags [] (split p.sort_key (lit ",")) (record p { final_sort_key_valid = true })

classify_sort_keys-Classified :
    (p : Paginator) → is_forward p ≡ p.forward_direction_set → IsClassified (classify_sort_keys p)
classify_sort_keys-Classified p h =
    let (a, (b, (c, e))) = classify_sort_keys-Flags p in
    record {
      distinct = λ d.
          subst (λ k. Distinct (split k (lit ","))) (sym (ap (λ q. q.sort_key) e))
            (classify_sort_keys-Distinct p d);
      heading = ap is_forward e ∙ (h ∙ sym (ap (λ q. q.forward_direction_set) e));
    }

-- A result that is not stuck, and if it is a paginator, then a classified one.
abbrev IsReturned : Result → Type 0
IsReturned (pager p) = IsClassified p
IsReturned (refused e) = Unit
IsReturned stuck = ⊥

module _ (p : Paginator) (c : IsClassified p) where
  parsed : Outcome (Heap × ℕ) → Result
  parsed (ok q) = pager (record p { filter_query = some q })
  parsed (err e) = refused filter_invalid
  parsed panic = stuck
  parsed timeout = stuck

  parsed-Returned : (o : Outcome (Heap × ℕ)) → Finished o → IsReturned (parsed o)
  unfolding parsed
  parsed-Returned (ok q) f = record { distinct = c.distinct; heading = c.heading }
  parsed-Returned (err e) f = tt
  parsed-Returned panic f = f
  parsed-Returned timeout f = f

  with_filter_query-Returned : IsReturned (with_filter_query p)
  unfolding with_filter_query parsed
  with_filter_query-Returned = elim (Bool-cases (is_empty p.filter)) [
    | inl b ↦ rw b c
    | inr b ↦
        rw b
          (parsed-Returned (create_filter_query p.filter) (create_filter_query-Finished p.filter))
  ]

-- What `ApplyOptions` promises of a result: a paginator is accepted, its sort keys are distinct and
-- its direction is the one that is set.
abbrev pub IsAcceptedResult : Result → Type 0
IsAcceptedResult (pager p) =
    IsAccepted p
    × (Distinct (split p.sort_key (lit ",")) × (is_forward p ≡ p.forward_direction_set))
IsAcceptedResult (refused e) = Unit
IsAcceptedResult stuck = ⊥

checked-AcceptedResult : (r : Result) → IsReturned r → IsAcceptedResult (checked r)
unfolding checked
checked-AcceptedResult (pager p) c = elim (Option-cases (validate p)) [
  | inl v ↦
      let a = validate-IsAccepted p v in
      rw (v, checked) (a, (c.distinct a.sort_keys_fresh, c.heading))
  | inr (x, v) ↦ rw (v, checked) tt
]
checked-AcceptedResult (refused x) c = tt
checked-AcceptedResult stuck c = c

-- On any options `ApplyOptions` returns: an error, or a paginator with a limit from 1 to 1500, a
-- supported version, a known order, exactly one direction, which is the one it pages in, a sort key
-- whose parts are distinct, a filter exactly when there is a parsed one, and a valid cursor.
pub apply_options-AcceptedResult : (os : List Opt) → IsAcceptedResult (apply_options os)
unfolding apply_options
apply_options-AcceptedResult os =
    let p = with_defaults (apply_each os initial) in
    checked-AcceptedResult _ (
      with_filter_query-Returned _
        (classify_sort_keys-Classified p (with_defaults-heading (apply_each os initial))))
