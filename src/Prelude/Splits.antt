-- ===== src/Prelude/Splits.antt =====
-- The functions of Go's package strings in use: trims, Cut, SplitN, Split and Contains.
use Prim.Native.Nat.{ℕ, zero, suc}
use mathlib.Core.Option.{Option, none, some}
use mathlib.Core.List.{List, [], ◌∷◌, reverse}
use authzsdk.Prelude.Tests.{if◌then◌else◌}
use authzsdk.Prelude.Lists.{length, drop}
use authzsdk.Prelude.Texts.{Text, has_prefix}

-- strings.TrimPrefix
unfoldable pub trim_prefix : Text → Text → Text
trim_prefix s p = if has_prefix s p then drop (length p) s else s

-- strings.TrimSuffix
unfoldable pub trim_suffix : Text → Text → Text
trim_suffix s p =
    if has_prefix (reverse s) (reverse p) then reverse (drop (length p) (reverse s)) else s

-- strings.Cut, at the first place of a separator that is not empty.
unfoldable pub cut : Text → Text → Option (Text × Text)
cut [] sep = none
cut (c ∷ s) sep =
    let rest = cut s sep in
    if has_prefix (c ∷ s) sep
    then some ([], drop (length sep) (c ∷ s))
    else elim rest [ none ↦ none | some (a, b) ↦ some (c ∷ a, b) ]

-- strings.SplitN
unfoldable pub split_n : ℕ → Text → Text → List Text
split_n zero s sep = []
split_n (suc zero) s sep = s ∷ []
split_n (suc (suc n)) s sep = elim (cut s sep) [
  | none ↦ s ∷ []
  | some (a, b) ↦ a ∷ split_n (suc n) b sep
]

-- strings.Split. Every piece but the last is followed by a separator, so the count suffices.
unfoldable pub split : Text → Text → List Text
split s sep = split_n (suc (length s)) s sep
