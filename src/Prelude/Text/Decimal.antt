-- ===== src/Prelude/Text/Decimal.antt =====
-- `%d` of Go's fmt: a number in decimal digits, with a sign where it is negative.
use Prim.Native.Nat.{ℕ, zero, suc, ◌+◌, ◌*◌, ◌/◌, ◌%◌, ◌<◌, ◌≤◌}
use mathlib.Core.List.{[], ◌∷◌}
use mathlib.Core.Logic.{inl, inr}
use mathlib.Core.Option.{some}
use mathlib.Core.Path.{◌≡◌, ap, ◌∙◌}
use native.Mathlib.Omega.{arith}
use open_sync_crdt.Prelude.Int.{ℤ, pos, negsuc}
use open_sync_crdt.Prelude.Tests.{ltb, if◌then◌else◌, Bool-cases}
use open_sync_crdt.Prelude.Text.{Text, digits}

-- The digits of `n` before `rest`; the fuel is more than `n`, and `n` gets smaller.
unfoldable pub digits_before : ℕ → ℕ → Text → Text
digits_before zero n rest = rest
digits_before (suc fuel) n rest =
    let more = digits_before fuel (n / 10) ((48 + n % 10) ∷ rest) in
    if ltb n 10 then (48 + n) ∷ rest else more

unfoldable pub decimal_of : ℕ → Text
unfolding digits_before
decimal_of n = digits_before (suc n) n []

unfoldable pub decimal : ℤ → Text
unfolding decimal_of
decimal (pos n) = decimal_of n
decimal (negsuc n) = b'-' ∷ decimal_of (suc n)

digit-read :
    (acc d : ℕ) (rest : Text) → d < 10 → digits acc ((48 + d) ∷ rest) ≡ digits (acc * 10 + d) rest
unfolding digits
digit-read acc d rest h = ground arith

-- The digits are read back: those before `rest` give the number from which `rest` goes on.
digits_before-read :
    (fuel n : ℕ) (rest : Text) → n < fuel → digits 0 (digits_before fuel n rest) ≡ digits n rest
unfolding digits_before
digits_before-read zero n rest h = absurd (omega arith)
digits_before-read (suc fuel) n rest h = elim (Bool-cases (ltb n 10)) [
  | inl small ↦
      let few : n < 10 = ground (arith, small) in
      let same : 0 * 10 + n ≡ n = omega arith in
      rw small (digit-read 0 n rest few ∙ ap (λ m. digits m rest) same)
  | inr large ↦
      let many : 10 ≤ n = ground (arith, large) in
      let whole : n / 10 * 10 + n % 10 ≡ n = omega arith in
      rw large (
        digits_before-read fuel (n / 10) ((48 + n % 10) ∷ rest) (omega (arith, many))
        ∙ digit-read (n / 10) (n % 10) rest (omega arith)
        ∙ ap (λ m. digits m rest) whole)
]

decimal_of-digits : (n : ℕ) → digits 0 (decimal_of n) ≡ some n
unfolding decimal_of digits
decimal_of-digits n = digits_before-read (suc n) n [] (omega arith)
