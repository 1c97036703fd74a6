-- ===== src/Pagination/SortKeys.antt =====
-- What the loop of classifySortKeys finds: duplicates among the keys of a sort key.
use authzsdk.Prelude.{
  ◌≡◌, ◌≢◌, refl, ap, sym, subst, ◌∙◌, inl, inr, List, [], ◌∷◌, Bool, true, false, ◌||◌, Text, lit,
  contains, split, arith, Bool-cases, All, text_eq_of_eq,
}
use authzsdk.Pagination.Options.{Paginator}
use authzsdk.Pagination.Pager.{is_unsupported, is_final, classify_keys, classify_sort_keys}

-- No element of the list occurs twice.
abbrev pub Distinct : List Text → Type 0
Distinct [] = Unit
Distinct (x ∷ xs) = All (λ y. x ≢ y) xs × Distinct xs

-- What the loop leaves of a paginator: all but its three flags.
abbrev pub with_flags : Bool → Bool → Bool → Paginator → Paginator
with_flags duplicate unsupported final p = record p {
  any_duplicate_sort_keys = duplicate;
  any_unsupported_sort_keys = unsupported;
  final_sort_key_valid = final;
}

abbrev pub Flags : Paginator → Paginator → Type 0
Flags p q =
    (duplicate : Bool) × ((unsupported : Bool) × ((final : Bool) × (q
          ≡ with_flags duplicate unsupported final p)))

abbrev duplicated : Paginator → Paginator
duplicated p = record p { any_duplicate_sort_keys = true }

abbrev noted : Text → Paginator → Paginator
noted key p = record p {
  any_unsupported_sort_keys = p.any_unsupported_sort_keys || is_unsupported p.is_key_supported key;
  final_sort_key_valid = is_final p.is_valid_final_sort_key key p.final_sort_key_valid;
}

module _ (seen : List Text) (key : Text) (keys : List Text) (p : Paginator) where
  round_of_seen :
      contains seen key ≡ true
      → classify_keys seen (key ∷ keys) p ≡ classify_keys (key ∷ seen) keys (duplicated p)
  unfolding classify_keys
  round_of_seen b = ground (arith, b)

  round_of_fresh :
      contains seen key ≡ false
      → classify_keys seen (key ∷ keys) p ≡ classify_keys (key ∷ seen) keys (noted key p)
  unfolding classify_keys
  round_of_fresh b = ground (arith, b)

pub classify_keys-Flags :
    (seen keys : List Text) (p : Paginator) → Flags p (classify_keys seen keys p)
unfolding classify_keys
classify_keys-Flags seen [] p =
    (p.any_duplicate_sort_keys, (p.any_unsupported_sort_keys, (p.final_sort_key_valid, refl)))
classify_keys-Flags seen (key ∷ keys) p = elim (Bool-cases (contains seen key)) [
  | inl b ↦
      subst (Flags p) (sym (round_of_seen seen key keys p b))
        (classify_keys-Flags (key ∷ seen) keys (duplicated p))
  | inr b ↦
      subst (Flags p) (sym (round_of_fresh seen key keys p b))
        (classify_keys-Flags (key ∷ seen) keys (noted key p))
]

abbrev has_duplicate : Paginator → Bool
has_duplicate p = p.any_duplicate_sort_keys

-- A duplicate once found stays found.
duplicate_found :
    (seen keys : List Text) (p : Paginator)
    → has_duplicate p ≡ true
    → has_duplicate (classify_keys seen keys p) ≡ true
unfolding classify_keys
duplicate_found seen [] p e = e
duplicate_found seen (key ∷ keys) p e = elim (Bool-cases (contains seen key)) [
  | inl b ↦
      ap has_duplicate (round_of_seen seen key keys p b)
      ∙ duplicate_found (key ∷ seen) keys (duplicated p) refl
  | inr b ↦
      ap has_duplicate (round_of_fresh seen key keys p b)
      ∙ duplicate_found (key ∷ seen) keys (noted key p) e
]

-- No key is among those seen before.
abbrev pub Apart : List Text → List Text → Type 0
Apart seen keys = All (λ y. contains seen y ≡ false) keys

pub Apart-tail :
    (key : Text) (seen keys : List Text)
    → Apart (key ∷ seen) keys
    → Apart seen keys × All (λ y. key ≢ y) keys
unfolding contains
Apart-tail key seen [] a = (tt, tt)
Apart-tail key seen (y ∷ ys) (e, a) =
    let (b, c) = Apart-tail key seen ys a in
    ((ground arith, b), ((λ h. ground (arith, text_eq_of_eq key y h)), c))

no_duplicate-Distinct :
    (seen keys : List Text) (p : Paginator)
    → has_duplicate (classify_keys seen keys p) ≡ false
    → Apart seen keys × Distinct keys
no_duplicate-Distinct seen [] p e = (tt, tt)
no_duplicate-Distinct seen (key ∷ keys) p e = elim (Bool-cases (contains seen key)) [
  | inl b ↦
      absurd (
        cc (round_of_seen seen key keys p b, duplicate_found (key ∷ seen) keys (duplicated p) refl))
  | inr b ↦
      let (a, d) =
        no_duplicate-Distinct (key ∷ seen) keys (noted key p)
          (ap has_duplicate (sym (round_of_fresh seen key keys p b)) ∙ e) in
      let (a', f) = Apart-tail key seen keys a in ((b, a'), (f, d))
]

-- A sort key in which the paginator finds no duplicate has none.
pub classify_sort_keys-Distinct :
    (p : Paginator)
    → (classify_sort_keys p).any_duplicate_sort_keys ≡ false
    → Distinct (split p.sort_key (lit ","))
unfolding classify_sort_keys
classify_sort_keys-Distinct p e =
    (no_duplicate-Distinct [] (split p.sort_key (lit ","))
      (record p { final_sort_key_valid = true }) e).1
