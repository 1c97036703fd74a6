-- ===== src/Prelude/Errors.antt =====
-- Checks in order: an error is `some`, nil is `none`.
use mathlib.Core.Path.{◌≡◌, refl}
use mathlib.Core.Bool.{Bool, true, false}
use mathlib.Core.Option.{Option, none, some}
use mathlib.Core.List.{List, [], ◌∷◌}
use authzsdk.Prelude.Lists.{All}

-- Of several checks in order, the first error.
abbrev pub first_error {ℓ} : {E : Type ℓ} → List (Option E) → Option E
first_error [] = none
first_error (none ∷ checks) = first_error checks
first_error (some e ∷ checks) = some e

abbrev pub refuse_if {ℓ} : {E : Type ℓ} → Bool → E → Option E
refuse_if true e = some e
refuse_if false e = none

pub first_error-none {ℓ} :
    {E : Type ℓ} (es : List (Option E)) → first_error es ≡ none → All (λ e. e ≡ none) es
first_error-none [] h = tt
first_error-none (none ∷ es) h = (refl, first_error-none es h)
first_error-none (some e ∷ es) h = absurd (cc)

pub refuse_if-none {ℓ} : {E : Type ℓ} (b : Bool) (x : E) → refuse_if b x ≡ none → b ≡ false
refuse_if-none true x e = absurd (cc)
refuse_if-none false x e = refl
