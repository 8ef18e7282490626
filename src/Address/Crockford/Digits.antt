-- ===== src/Address/Crockford/Digits.antt =====
-- The digits that the encoder of address/c32.rs finds, apart from the buffer: 8-bit groups
-- regrouped by 5 bits, lowest first.
use stacks_encoding_native_j.Prelude.{ℕ, zero, suc, ◌+◌, ◌-◌, ◌*◌, ◌/◌, ◌%◌, ◌^◌, ◌≤◌, ◌<◌, ◌≡◌}
use stacks_encoding_native_j.Prelude.{arith, List, [], ◌∷◌, length, ltb, leb}
use stacks_encoding_native_j.Prelude.{if◌then◌else◌, Bool-cases, inl, inr}
use stacks_encoding_native_j.Radix.{value, Digits}

-- What a round does with `n = carry_bits` bits of carry, for a byte `v`.
abbrev pub low_digit : ℕ → ℕ → ℕ → ℕ
low_digit n c v = v % 2 ^ (5 - n) * 2 ^ n + c

abbrev pub rest_of : ℕ → ℕ → ℕ
rest_of n v = v / 2 ^ (5 - n)

abbrev pub next_bits : ℕ → ℕ
next_bits n = if leb 5 (n + 3) then n + 3 - 5 else n + 3

abbrev pub next_carry : ℕ → ℕ → ℕ
next_carry n v = if leb 5 (n + 3) then rest_of n v / 2 ^ 5 else rest_of n v

abbrev pub high_digits : ℕ → ℕ → List ℕ → List ℕ
high_digits n v ds = if leb 5 (n + 3) then rest_of n v % 2 ^ 5 ∷ ds else ds

unfoldable pub regroup : ℕ → ℕ → List ℕ → List ℕ
regroup n c [] = if ltb 0 n then c ∷ [] else []
regroup n c (v ∷ vs) = low_digit n c v ∷ high_digits n v (regroup (next_bits n) (next_carry n v) vs)

-- Five values of `carry_bits` are met.
pub by_bits {ℓ} : (P : ℕ → Type ℓ) → P 0 → P 1 → P 2 → P 3 → P 4 → (n : ℕ) → n ≤ 4 → P n
by_bits P p0 p1 p2 p3 p4 zero h = p0
by_bits P p0 p1 p2 p3 p4 (suc zero) h = p1
by_bits P p0 p1 p2 p3 p4 (suc (suc zero)) h = p2
by_bits P p0 p1 p2 p3 p4 (suc (suc (suc zero))) h = p3
by_bits P p0 p1 p2 p3 p4 (suc (suc (suc (suc zero)))) h = p4
by_bits P p0 p1 p2 p3 p4 (suc (suc (suc (suc (suc n))))) h = absurd (omega arith)

abbrev RoundFacts : ℕ → Type 0
RoundFacts n =
    (c v : ℕ)
    → c < 2 ^ n
    → v < 256
    → (next_bits n ≤ 4) × (next_carry n v < 2 ^ next_bits n) × (low_digit n c v < 32)

pub round_facts : (n : ℕ) → n ≤ 4 → RoundFacts n
round_facts =
    by_bits RoundFacts (λ c v p q. omega arith) (λ c v p q. omega arith) (λ c v p q. omega arith)
      (λ c v p q. omega arith) (λ c v p q. omega arith)

abbrev RoundValue : ℕ → Type 0
RoundValue n =
    (c v w : ℕ) (ds : List ℕ)
    → value 32 ds ≡ next_carry n v + 2 ^ next_bits n * w
    → value 32 (low_digit n c v ∷ high_digits n v ds) ≡ c + 2 ^ n * (v + 256 * w)

round_value : (n : ℕ) → n ≤ 4 → RoundValue n
unfolding value
round_value =
    by_bits RoundValue (λ c v w ds e. omega arith) (λ c v w ds e. omega arith)
      (λ c v w ds e. omega arith) (λ c v w ds e. omega arith) (λ c v w ds e. omega arith)

abbrev EndValue : ℕ → Type 0
EndValue n = (c : ℕ) → c < 2 ^ n → value 32 (regroup n c []) ≡ c + 2 ^ n * 0

end_value : (n : ℕ) → n ≤ 4 → EndValue n
unfolding value regroup
end_value =
    by_bits EndValue (λ c p. omega arith) (λ c p. omega arith) (λ c p. omega arith)
      (λ c p. omega arith) (λ c p. omega arith)

pub value-regroup :
    (n c : ℕ) (vs : List ℕ)
    → n ≤ 4
    → c < 2 ^ n
    → Digits 256 vs
    → value 32 (regroup n c vs) ≡ c + 2 ^ n * value 256 vs
unfolding value regroup
value-regroup n c [] hn hc h = end_value n hn c hc
value-regroup n c (v ∷ vs) hn hc h =
    let (bits, carry, low) = round_facts n hn c v hc h.0 in
    round_value n hn c v (value 256 vs) (regroup (next_bits n) (next_carry n v) vs)
      (value-regroup (next_bits n) (next_carry n v) vs bits carry h.1)

Digits-high_digits : (n v : ℕ) (ds : List ℕ) → Digits 32 ds → Digits 32 (high_digits n v ds)
Digits-high_digits n v ds h = elim (Bool-cases (leb 5 (n + 3))) [
  | inl e ↦ rw e (omega arith, h)
  | inr e ↦ rw e h
]

abbrev EndDigits : ℕ → Type 0
EndDigits n = (c : ℕ) → c < 2 ^ n → Digits 32 (regroup n c [])

end_digits : (n : ℕ) → n ≤ 4 → EndDigits n
unfolding regroup
end_digits =
    by_bits EndDigits (λ c p. tt) (λ c p. omega arith) (λ c p. omega arith) (λ c p. omega arith)
      (λ c p. omega arith)

pub Digits-regroup :
    (n c : ℕ) (vs : List ℕ) → n ≤ 4 → c < 2 ^ n → Digits 256 vs → Digits 32 (regroup n c vs)
unfolding regroup
Digits-regroup n c [] hn hc h = end_digits n hn c hc
Digits-regroup n c (v ∷ vs) hn hc h =
    let (bits, carry, low) = round_facts n hn c v hc h.0 in
    (
      low,
      Digits-high_digits n v _ (Digits-regroup (next_bits n) (next_carry n v) vs bits carry h.1),
    )

abbrev RoundLength : ℕ → Type 0
RoundLength n =
    (v l : ℕ) (ds : List ℕ)
    → 5 * length ds ≤ next_bits n + l + 4
    → 5 * suc (length (high_digits n v ds)) ≤ n + 8 + l + 4

round_length : (n : ℕ) → n ≤ 4 → RoundLength n
round_length =
    by_bits RoundLength (λ v l ds p. omega arith) (λ v l ds p. omega arith)
      (λ v l ds p. omega arith) (λ v l ds p. omega arith) (λ v l ds p. omega arith)

next_bits_bounded : (n : ℕ) → n ≤ 4 → next_bits n ≤ 4
next_bits_bounded n h = ground arith

pub length-regroup :
    (n c : ℕ) (vs : List ℕ) → n ≤ 4 → 5 * length (regroup n c vs) ≤ n + 8 * length vs + 4
unfolding regroup
length-regroup n c [] hn = ground arith
length-regroup n c (v ∷ vs) hn =
    let tail = regroup (next_bits n) (next_carry n v) vs in
    let ih = length-regroup (next_bits n) (next_carry n v) vs (next_bits_bounded n hn) in
    omega (arith, round_length n hn v (8 * length vs) tail ih)
