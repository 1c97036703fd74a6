-- ===== src/Prelude/Texts.antt =====
-- Go strings as lists of bytes: equality, prefixes and the functions of package strings in use.
use Prim.Native.Nat.{ℕ}
use Prim.Native.Char.{code}
use Prim.Native.String.{String}
use mathlib.Core.Path.{◌≡◌, refl}
use mathlib.Core.Logic.{◌↔◌, ◌≢◌}
use mathlib.Core.Bool.{Bool, true, false, ◌&&◌, ◌||◌}
use mathlib.Core.List.{List, [], ◌∷◌, ◌++◌}
use native.Mathlib.Omega.{arith}
use authzsdk.Prelude.Tests.{◌==◌}
use authzsdk.Prelude.Lists.{length}

abbrev pub Text : Type 0
Text = List ℕ

-- The bytes of an ASCII literal.
abbrev pub lit : String → Text
lit String.[] = []
lit (String.◌∷◌ c s) = code c ∷ lit s

unfoldable pub text_eq : Text → Text → Bool
text_eq [] [] = true
text_eq [] (b ∷ t) = false
text_eq (a ∷ s) [] = false
text_eq (a ∷ s) (b ∷ t) = a == b && text_eq s t

pub eq_of_text_eq : (s t : Text) → text_eq s t ≡ true → s ≡ t
unfolding text_eq
eq_of_text_eq [] [] h = refl
eq_of_text_eq [] (b ∷ t) h = cc
eq_of_text_eq (a ∷ s) [] h = cc
eq_of_text_eq (a ∷ s) (b ∷ t) h = ground (arith, eq_of_text_eq s t)

pub text_eq_refl : (s : Text) → text_eq s s ≡ true
unfolding text_eq
text_eq_refl [] = refl
text_eq_refl (a ∷ s) = ground (arith, text_eq_refl s)

pub text_eq_of_eq : (s t : Text) → s ≡ t → text_eq s t ≡ true
text_eq_of_eq s t e = rw e (text_eq_refl t)

pub text_eq_iff : (s t : Text) → (text_eq s t ≡ true) ↔ (s ≡ t)
text_eq_iff s t = (eq_of_text_eq s t, text_eq_of_eq s t)

pub text_eq_ne : (s t : Text) → s ≢ t → text_eq s t ≡ false
text_eq_ne s t h = ground (arith, eq_of_text_eq s t)

pub ne_of_text_eq : (s t : Text) → text_eq s t ≡ false → s ≢ t
ne_of_text_eq s t h e = cc (h, text_eq_of_eq s t e)

-- strings.HasPrefix
unfoldable pub has_prefix : Text → Text → Bool
has_prefix s [] = true
has_prefix [] (b ∷ p) = false
has_prefix (a ∷ s) (b ∷ p) = a == b && has_prefix s p

pub has_prefix-append : (p s : Text) → has_prefix (p ++ s) p ≡ true
unfolding has_prefix
has_prefix-append [] [] = refl
has_prefix-append [] (a ∷ s) = refl
has_prefix-append (b ∷ p) s = ground (arith, has_prefix-append p s)

-- A text with a prefix keeps it when more is appended.
pub has_prefix-append_right : (s p t : Text) → has_prefix s p ≡ true → has_prefix (s ++ t) p ≡ true
unfolding has_prefix
has_prefix-append_right [] [] [] h = refl
has_prefix-append_right [] [] (x ∷ t) h = refl
has_prefix-append_right [] (b ∷ p) t h = cc
has_prefix-append_right (a ∷ s) [] t h = refl
has_prefix-append_right (a ∷ s) (b ∷ p) t h = ground (arith, has_prefix-append_right s p t)

-- Membership in a list, or in the domain of a `map[string]bool`.
unfoldable pub contains : List Text → Text → Bool
contains [] k = false
contains (j ∷ keys) k = text_eq j k || contains keys k

-- A text with a prefix is the prefix and a rest.
pub has_prefix_split : (s p : Text) → has_prefix s p ≡ true → (t : Text) × (s ≡ p ++ t)
unfolding has_prefix
has_prefix_split s [] h = (s, refl)
has_prefix_split [] (b ∷ p) h = absurd (cc)
has_prefix_split (a ∷ s) (b ∷ p) h =
    let (t, e) = has_prefix_split s p (ground arith) in (t, ground (arith, e))

-- Of two texts of one length, one is a prefix of the other only if they are equal.
pub eq_of_has_prefix : (s p : Text) → length s ≡ length p → has_prefix s p ≡ true → s ≡ p
unfolding has_prefix
eq_of_has_prefix [] [] e h = refl
eq_of_has_prefix [] (b ∷ p) e h = cc
eq_of_has_prefix (a ∷ s) [] e h = absurd (omega arith)
eq_of_has_prefix (a ∷ s) (b ∷ p) e h = ground (arith, eq_of_has_prefix s p (omega arith))

pub has_prefix_refl : (s : Text) → has_prefix s s ≡ true
unfolding has_prefix
has_prefix_refl [] = refl
has_prefix_refl (a ∷ s) = ground (arith, has_prefix_refl s)

-- Prefixes are transitive.
pub has_prefix_trans :
    (s p q : Text) → has_prefix s p ≡ true → has_prefix p q ≡ true → has_prefix s q ≡ true
unfolding has_prefix
has_prefix_trans [] p [] h k = refl
has_prefix_trans (a ∷ s) p [] h k = refl
has_prefix_trans s [] (c ∷ q) h k = cc
has_prefix_trans [] (b ∷ p) (c ∷ q) h k = cc
has_prefix_trans (a ∷ s) (b ∷ p) (c ∷ q) h k = ground (arith, has_prefix_trans s p q)

-- Nothing is equal to itself with a byte or more behind it.
pub text_eq-append : (s t : Text) → text_eq t [] ≡ false → text_eq (s ++ t) s ≡ false
unfolding text_eq
text_eq-append [] [] h = cc
text_eq-append [] (b ∷ t) h = refl
text_eq-append (a ∷ s) t h = ground (arith, text_eq-append s t)
