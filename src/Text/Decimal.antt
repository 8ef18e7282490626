-- ===== src/Text/Decimal.antt =====
-- How Rust's standard library prints a natural number in decimal.
use stacks_encoding_native_j.Prelude.{ℕ, zero, suc, ◌+◌, ◌-◌, ◌*◌, ◌/◌, ◌%◌, ◌<◌, ◌≡◌, refl, arith}
use stacks_encoding_native_j.Prelude.{List, [], ◌∷◌, ltb, true, false, Bool-cases, inl, inr}

-- The digits of a number in front of a text, with fuel for the digits.
unfoldable pub decimal_from : ℕ → ℕ → List ℕ → List ℕ
decimal_from zero n text = text
decimal_from (suc fuel) n text = elim (ltb n 10) [
  | true ↦ (b'0' + n) ∷ text
  | false ↦ decimal_from fuel (n / 10) ((b'0' + n % 10) ∷ text)
]

-- A number has fewer digits than its successor.
unfoldable pub decimal : ℕ → List ℕ
decimal n = decimal_from (suc n) n []

-- The number of a text of digits, behind the number of what stands in front of it.
unfoldable pub from_decimal : ℕ → List ℕ → ℕ
from_decimal acc [] = acc
from_decimal acc (c ∷ text) = from_decimal (acc * 10 + (c - b'0')) text

decimal_from_lem :
    (fuel n : ℕ) (text : List ℕ)
    → n < fuel
    → from_decimal 0 (decimal_from fuel n text) ≡ from_decimal n text
unfolding decimal_from from_decimal
decimal_from_lem zero n text h = absurd (omega arith)
decimal_from_lem (suc fuel) n text h = elim (Bool-cases (ltb n 10)) [
  | inl e ↦
      (let d : 0 * 10 + (b'0' + n - b'0') ≡ n = omega arith in rw (e, decimal_from) (rw d refl))
  | inr e ↦
      (let smaller : n / 10 < fuel = ground arith in
        let d : n / 10 * 10 + (b'0' + n % 10 - b'0') ≡ n = omega arith in
        rw (e, decimal_from)
          (rw (decimal_from_lem fuel (n / 10) ((b'0' + n % 10) ∷ text) smaller, d) refl))
]

-- The digits that are printed are those of the number, so that the fuel is enough.
pub from_decimal-decimal : (n : ℕ) → from_decimal 0 (decimal n) ≡ n
unfolding decimal from_decimal
from_decimal-decimal n = decimal_from_lem (suc n) n [] (omega arith)
