-- ===== src/Prelude/Ints.antt =====
-- Go's int, and Atoi and Itoa of package strconv on it.
use Prim.Native.Nat.{ℕ, zero, suc, ◌+◌, ◌-◌, ◌*◌, ◌/◌, ◌%◌, ◌^◌, ◌<◌, ◌≤◌}
use mathlib.Core.Path.{◌≡◌}
use mathlib.Core.Bool.{Bool, ◌&&◌}
use mathlib.Core.Option.{Option, none, some}
use mathlib.Core.List.{[], ◌∷◌}
use native.Mathlib.Omega.{arith}
use mathlib.Core.Logic.{inl, inr}
use authzsdk.Prelude.Tests.{Bool-cases, if◌then◌else◌, ltb, leb, ◌==◌}
use authzsdk.Prelude.Texts.{Text}

-- An integer: `n`, or `- (n + 1)`.
pub data ℤ : Type 0 where
  pos negsuc : ℕ → ℤ

abbrev pub neg : ℕ → ℤ
neg zero = pos 0
neg (suc n) = negsuc n

abbrev pub is_digit : ℕ → Bool
is_digit c = leb b'0' c && leb c b'9'

abbrev pub digits : Text → ℕ → Option ℕ
digits [] n = some n
digits (c ∷ s) n = let rest = digits s (n * 10 + (c - 48)) in if is_digit c then rest else none

abbrev pub unsigned : Text → Option ℕ
unsigned [] = none
unsigned (c ∷ s) = digits (c ∷ s) 0

abbrev pub in_range : ℕ → (ℕ → ℤ) → Option ℕ → Option ℤ
in_range bound sign none = none
in_range bound sign (some n) = if ltb n bound then some (sign n) else none

-- strconv.Atoi: an optional sign and decimal digits, within 64 bits.
abbrev pub atoi : Text → Option ℤ
atoi [] = none
atoi (c ∷ s) =
    if c == b'-'
    then in_range (2 ^ 63 + 1) neg (unsigned s)
    else if c == b'+'
    then in_range (2 ^ 63) pos (unsigned s)
    else in_range (2 ^ 63) pos (unsigned (c ∷ s))

-- The decimal digits before `rest`; a number below `fuel` has fewer digits than `fuel`.
abbrev pub decimal : ℕ → ℕ → Text → Text
decimal zero n rest = rest
decimal (suc fuel) n rest =
    let more = decimal fuel (n / 10) ((48 + n % 10) ∷ rest) in
    if ltb n 10 then (48 + n % 10) ∷ rest else more

-- strconv.Itoa
abbrev pub itoa : ℤ → Text
itoa (pos n) = decimal (suc n) n []
itoa (negsuc n) = b'-' ∷ decimal (suc (suc n)) (suc n) []

-- The number `n` is read from its digits, those behind them follow.
digits-decimal :
    (fuel n : ℕ) (rest : Text) → n < fuel → digits (decimal fuel n rest) 0 ≡ digits rest n
digits-decimal zero n rest l = absurd (omega arith)
digits-decimal (suc fuel) n rest l = elim (Bool-cases (ltb n 10)) [
  | inl b ↦ ground arith
  | inr b ↦ ground (arith, digits-decimal fuel (n / 10) ((48 + n % 10) ∷ rest))
]

-- The print of a number starts with a digit.
decimal_starts :
    (fuel n : ℕ) (rest : Text)
    → n < fuel
    → (c : ℕ) × ((s : Text) × ((decimal fuel n rest ≡ c ∷ s) × (48 ≤ c)))
decimal_starts zero n rest l = absurd (omega arith)
decimal_starts (suc fuel) n rest l = elim (Bool-cases (ltb n 10)) [
  | inl b ↦ (48 + n % 10, (rest, (ground arith, omega arith)))
  | inr b ↦
      let (c, (s, (e, d))) = decimal_starts fuel (n / 10) ((48 + n % 10) ∷ rest) (ground arith) in
      (c, (s, (ground (arith, e), d)))
]

-- strconv.Atoi reads what strconv.Itoa prints of a number of at most 63 bits.
pub atoi-itoa : (n : ℕ) → n < 2 ^ 63 → atoi (itoa (pos n)) ≡ some (pos n)
atoi-itoa n l =
    let (c, (s, (e, d))) = decimal_starts (suc n) n [] (omega arith) in
    ground (arith, e, digits-decimal (suc n) n [] (omega arith))
