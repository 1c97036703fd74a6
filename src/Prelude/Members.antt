-- ===== src/Prelude/Members.antt =====
-- Decidable equality as an interface, membership in lists by it, and the pigeonhole principle.
use Prim.Native.Nat.{◌≤◌, ◌<◌}
use mathlib.Core.Path.{◌≡◌, refl, ap, sym, ◌∙◌}
use mathlib.Core.Logic.{◌↔◌}
use mathlib.Core.Bool.{Bool, true, false, not, ◌&&◌, ◌||◌}
use mathlib.Core.List.{List, [], ◌∷◌}
use native.Mathlib.Omega.{arith}
use authzsdk.Prelude.Tests.{if◌then◌else◌}
use authzsdk.Prelude.Lists.{length}
use authzsdk.Prelude.Texts.{Text, text_eq, text_eq_iff}

pub record Eq {ℓ} (A : Type ℓ) : Type ℓ where
  pub beq : A → A → Bool
  pub beq_iff : (a b : A) → (beq a b ≡ true) ↔ (a ≡ b)

instance abbrev pub text_equality : Eq Text
text_equality = record { beq = text_eq; beq_iff = text_eq_iff }

module _ {ℓ} {A : Type ℓ} ⦃e : Eq A⦄ where
  unfoldable pub member : List A → A → Bool
  member [] a = false
  member (x ∷ xs) a = e.beq x a || member xs a

  -- No element occurs twice.
  abbrev pub Unique : List A → Type 0
  Unique [] = Unit
  Unique (x ∷ xs) = (member xs x ≡ false) × Unique xs

  -- The list without an element.
  unfoldable pub remove : A → List A → List A
  remove a [] = []
  remove a (x ∷ xs) = let rest = remove a xs in if e.beq x a then rest else x ∷ rest

  pub beq_refl : (a : A) → e.beq a a ≡ true
  beq_refl a = (e.beq_iff a a).1 refl

  pub member_of_beq : (xs : List A) (a b : A) → e.beq a b ≡ true → member xs a ≡ member xs b
  member_of_beq xs a b h = ap (member xs) ((e.beq_iff a b).0 h)

  -- Elements that equal a third one are equal.
  pub beq_join : (x a b : A) → e.beq x b ≡ true → e.beq a b ≡ true → e.beq x a ≡ true
  beq_join x a b h k = (e.beq_iff x a).1 ((e.beq_iff x b).0 h ∙ sym ((e.beq_iff a b).0 k))

  pub beq_swap : (a b : A) → e.beq a b ≡ true → e.beq b a ≡ true
  beq_swap a b h = (e.beq_iff b a).1 (sym ((e.beq_iff a b).0 h))

  pub member-remove :
      (a b : A) (xs : List A) → member (remove a xs) b ≡ (not (e.beq a b) && member xs b)
  unfolding member remove
  member-remove a b [] = ground arith
  member-remove a b (x ∷ xs) = ground (
    arith,
    member-remove a b xs,
    beq_join x a b,
    λ (h : e.beq x a ≡ true). beq_join a x b,
    λ (h : e.beq x a ≡ true). ap (λ z. e.beq z b) ((e.beq_iff x a).0 h),
  )

  pub length-remove-le : (a : A) (xs : List A) → length (remove a xs) ≤ length xs
  unfolding remove
  length-remove-le a [] = omega arith
  length-remove-le a (x ∷ xs) = ground (arith, length-remove-le a xs)

  pub length-remove-lt :
      (a : A) (xs : List A) → member xs a ≡ true → length (remove a xs) < length xs
  unfolding remove member
  length-remove-lt a [] h = absurd (cc)
  length-remove-lt a (x ∷ xs) h = ground (arith, length-remove-le a xs, length-remove-lt a xs)

  -- Distinct elements that all occur in another list are no more than its elements.
  pub length-Unique-le :
      (xs ys : List A)
      → Unique xs
      → ((x : A) → member xs x ≡ true → member ys x ≡ true)
      → length xs ≤ length ys
  unfolding member
  length-Unique-le [] ys u s = omega arith
  length-Unique-le (x ∷ xs) ys (fresh, u) s = omega (
    arith,
    length-remove-lt x ys (s x (ground (arith, beq_refl x))),
    length-Unique-le xs (remove x ys) u (λ z m.
        ground
          (arith, member-remove x z ys, s z, λ (h : e.beq x z ≡ true). member_of_beq xs x z h)),
  )
