-- ===== src/Pagination/Cursors.antt =====
-- Which cursors Paginator.ValidateCursor accepts.
use authzsdk.Prelude.{
  first_error-none, ◌≡◌, ◌≢◌, refl, ap, sym, ◌∙◌, ◌↔◌, inl, inr, Option, none, List, [], ◌∷◌, map,
  false, Text, lit, contains, split, arith, Bool-cases, All, text_eq_ne,
}
use authzsdk.Pagination.Types.{Cursor, cursor_begin, cursor_end, PagerError}
use authzsdk.Pagination.Options.{Paginator}
use authzsdk.Pagination.Pager.{first_of, checked_by, validate_pair, validate_pairs, validate_cursor}
use authzsdk.Pagination.SortKeys.{Distinct, Apart, Apart-tail}

abbrev pub Validator : Type 0
Validator = Option (Text → Text → Option PagerError)

-- A part of a cursor that is a key and a value that the validator, if there is one, accepts.
abbrev pub IsPair : Validator → Text → Type 0
IsPair f part =
    (key : Text) × ((value : Text) × ((split part (lit ":") ≡ key ∷ value ∷ [])
        × (checked_by f key value ≡ none)))

abbrev pub key_of : Text → Text
key_of part = first_of (split part (lit ":"))

-- All parts are pairs, with keys that are distinct.
abbrev pub ArePairs : Validator → List Text → Type 0
ArePairs f parts = All (IsPair f) parts × Distinct (map key_of parts)

Pair : Validator → List Text → List Text → Type 0
Pair f seen pair =
    (key : Text) × ((value : Text) × ((pair ≡ key ∷ value ∷ [])
        × ((checked_by f key value ≡ none) × (contains seen key ≡ false))))

validate_pair-Pair :
    (f : Validator) (seen pair : List Text) → validate_pair f seen pair ≡ none → Pair f seen pair
unfolding validate_pair Pair
validate_pair-Pair f seen (key ∷ value ∷ []) e = elim (Bool-cases (contains seen key)) [
  | inl b ↦ absurd (ground arith)
  | inr b ↦ (key, (value, (refl, (ground arith, b))))
]
validate_pair-Pair f seen _ e = absurd (cc)

validate_pair_of_pair :
    (f : Validator) (seen : List Text) (key value : Text)
    → checked_by f key value ≡ none
    → contains seen key ≡ false
    → validate_pair f seen (key ∷ value ∷ []) ≡ none
unfolding validate_pair
validate_pair_of_pair f seen key value e h = ground (arith, e, h)

module _ (f : Validator) (seen : List Text) (part : Text) (parts : List Text) where
  -- The two checks of a round.
  round_checks :
      validate_pairs f seen (part ∷ parts) ≡ none
      → (validate_pair f seen (split part (lit ":")) ≡ none)
        × (validate_pairs f (key_of part ∷ seen) parts ≡ none)
  unfolding validate_pairs
  round_checks e =
      let (a, (b, _)) =
        first_error-none
          (validate_pair f seen (split part (lit ":"))
            ∷ validate_pairs f (key_of part ∷ seen) parts
            ∷ [])
          e in
      (a, b)

  round_passes :
      validate_pair f seen (split part (lit ":")) ≡ none
      → validate_pairs f (key_of part ∷ seen) parts ≡ none
      → validate_pairs f seen (part ∷ parts) ≡ none
  unfolding validate_pairs
  round_passes a b = rw (a, validate_pairs) (rw b refl)

-- Keys that are apart from those seen and from one more are apart from all these.
Apart-cons :
    (key : Text) (seen keys : List Text)
    → Apart seen keys
    → All (λ y. key ≢ y) keys
    → Apart (key ∷ seen) keys
unfolding contains
Apart-cons key seen [] a d = tt
Apart-cons key seen (y ∷ ys) (e, a) (n, d) =
    (ground (arith, e, text_eq_ne key y n), Apart-cons key seen ys a d)

pairs_valid :
    (f : Validator) (seen parts : List Text)
    → validate_pairs f seen parts ≡ none
    → ArePairs f parts × Apart seen (map key_of parts)
unfolding Pair
pairs_valid f seen [] e = ((tt, tt), tt)
pairs_valid f seen (part ∷ parts) e =
    let (a, b) = round_checks f seen part parts e in
    let (key, (value, (s, (c, fresh)))) = validate_pair-Pair f seen _ a in
    let ((pairs, distinct), apart) = pairs_valid f (key_of part ∷ seen) parts b in
    let (apart', others) = Apart-tail (key_of part) seen (map key_of parts) apart in
    (
      (((key, (value, (s, c))), pairs), (others, distinct)),
      (ap (contains seen) (ap first_of s) ∙ fresh, apart'),
    )

valid_pairs :
    (f : Validator) (seen parts : List Text)
    → ArePairs f parts
    → Apart seen (map key_of parts)
    → validate_pairs f seen parts ≡ none
unfolding validate_pairs
valid_pairs f seen [] p a = refl
valid_pairs f seen (part ∷ parts) (((key, (value, (s, c))), pairs), (others, distinct))
      (fresh, apart) =
    round_passes f seen part parts
      (rw s (
        validate_pair_of_pair f seen key value c
          (sym (ap (contains seen) (ap first_of s)) ∙ fresh)))
      (valid_pairs f (key_of part ∷ seen) parts (pairs, distinct)
        (Apart-cons (key_of part) seen (map key_of parts) apart others))

Apart-nil : (keys : List Text) → Apart [] keys
unfolding contains
Apart-nil [] = tt
Apart-nil (k ∷ keys) = (refl, Apart-nil keys)

-- A cursor other than the begin and the end of a collection is valid exactly if its parts between
-- commas are pairs of a key and a value around one colon, which the paginator's validator, if it has
-- one, accepts, and the keys are distinct.
pub validate_cursor-ArePairs :
    (p : Paginator) (c : Cursor)
    → c ≢ cursor_begin
    → c ≢ cursor_end
    → (validate_cursor p c ≡ none) ↔ ArePairs p.key_value_validator (split c (lit ","))
unfolding validate_cursor
validate_cursor-ArePairs p c b e = rw (text_eq_ne c cursor_begin b) (
    rw (text_eq_ne c cursor_end e) (
      (λ v. (pairs_valid p.key_value_validator [] (split c (lit ",")) v).0),
      λ v. valid_pairs p.key_value_validator [] (split c (lit ",")) v (Apart-nil _),
    ))
