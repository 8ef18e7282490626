-- ===== src/Address/Crockford/Bytes.antt =====
-- The bytes that the decoder of address/c32.rs finds: 5-bit digits regrouped by 8 bits.
use stacks_encoding_native_j.Prelude.{ℕ, zero, suc, ◌+◌, ◌-◌, ◌*◌, ◌/◌, ◌%◌, ◌^◌, ◌≤◌, ◌<◌, ◌≡◌}
use stacks_encoding_native_j.Prelude.{refl, sym, ap, ◌∙◌, arith, List, [], ◌∷◌, ◌++◌, ltb, leb}
use stacks_encoding_native_j.Prelude.{if◌then◌else◌, Bool-cases, inl, inr, reverse, bit_and, ==→eq}
use stacks_encoding_native_j.Prelude.{
  holds_below, holds_below-at, Bool, true, ◌==◌, append_assoc, length,
}
use stacks_encoding_native_j.Radix.{value, Digits}
use stacks_encoding_native_j.Address.Crockford.DecodeDefs.{
  DecodeState, decode_round, decode_loop, push_carry,
}
use mathlib.Core.List.{reverse-cons}

-- What a round does with `n = carry_bits` bits of carry `c`, for a digit `d`.
abbrev total : ℕ → ℕ → ℕ → ℕ
total n c d = c + d * 2 ^ n

abbrev next_bits : ℕ → ℕ
next_bits n = if leb 8 (n + 5) then n + 5 - 8 else n + 5

abbrev next_carry : ℕ → ℕ → ℕ → ℕ
next_carry n c d = if leb 8 (n + 5) then total n c d / 2 ^ 8 else total n c d

abbrev full_byte : ℕ → ℕ → ℕ → List ℕ → List ℕ
full_byte n c d bs = if leb 8 (n + 5) then total n c d % 2 ^ 8 ∷ bs else bs

unfoldable pub regroup : ℕ → ℕ → List ℕ → List ℕ
regroup n c [] = if ltb 0 n then c ∷ [] else []
regroup n c (d ∷ ds) = full_byte n c d (regroup (next_bits n) (next_carry n c d) ds)

-- Eight values of `carry_bits` are met.
by_bits {ℓ} :
    (P : ℕ → Type ℓ) → P 0 → P 1 → P 2 → P 3 → P 4 → P 5 → P 6 → P 7 → (n : ℕ) → n ≤ 7 → P n
by_bits P p0 p1 p2 p3 p4 p5 p6 p7 zero h = p0
by_bits P p0 p1 p2 p3 p4 p5 p6 p7 (suc zero) h = p1
by_bits P p0 p1 p2 p3 p4 p5 p6 p7 (suc (suc zero)) h = p2
by_bits P p0 p1 p2 p3 p4 p5 p6 p7 (suc (suc (suc zero))) h = p3
by_bits P p0 p1 p2 p3 p4 p5 p6 p7 (suc (suc (suc (suc zero)))) h = p4
by_bits P p0 p1 p2 p3 p4 p5 p6 p7 (suc (suc (suc (suc (suc zero))))) h = p5
by_bits P p0 p1 p2 p3 p4 p5 p6 p7 (suc (suc (suc (suc (suc (suc zero)))))) h = p6
by_bits P p0 p1 p2 p3 p4 p5 p6 p7 (suc (suc (suc (suc (suc (suc (suc zero))))))) h = p7
by_bits P p0 p1 p2 p3 p4 p5 p6 p7 (suc (suc (suc (suc (suc (suc (suc (suc n)))))))) h =
    absurd (omega arith)

low_byte_agrees : ℕ → Bool
low_byte_agrees x = bit_and x (2 ^ 8 - 1) == x % 2 ^ 8

low_byte_table : holds_below 4096 low_byte_agrees ≡ true
unfolding holds_below low_byte_agrees
low_byte_table = refl

low_byte : (x : ℕ) → x < 4096 → bit_and x (2 ^ 8 - 1) ≡ x % 2 ^ 8
unfolding low_byte_agrees
low_byte x h = ==→eq _ _ (holds_below-at 4096 low_byte_agrees x low_byte_table h)

abbrev RoundFacts : ℕ → Type 0
RoundFacts n =
    (c d : ℕ)
    → c < 2 ^ n
    → d < 32
    → (next_bits n ≤ 7) × (next_carry n c d < 2 ^ next_bits n) × (total n c d < 4096)

round_facts : (n : ℕ) → n ≤ 7 → RoundFacts n
round_facts =
    by_bits RoundFacts (λ c d p q. omega arith) (λ c d p q. omega arith) (λ c d p q. omega arith)
      (λ c d p q. omega arith) (λ c d p q. omega arith) (λ c d p q. omega arith)
      (λ c d p q. omega arith) (λ c d p q. omega arith)

abbrev RoundValue : ℕ → Type 0
RoundValue n =
    (c d w : ℕ) (bs : List ℕ)
    → value 256 bs ≡ next_carry n c d + 2 ^ next_bits n * w
    → value 256 (full_byte n c d bs) ≡ c + 2 ^ n * (d + 32 * w)

round_value : (n : ℕ) → n ≤ 7 → RoundValue n
unfolding value
round_value =
    by_bits RoundValue (λ c d w bs e. omega arith) (λ c d w bs e. omega arith)
      (λ c d w bs e. omega arith) (λ c d w bs e. omega arith) (λ c d w bs e. omega arith)
      (λ c d w bs e. omega arith) (λ c d w bs e. omega arith) (λ c d w bs e. omega arith)

abbrev EndValue : ℕ → Type 0
EndValue n = (c : ℕ) → c < 2 ^ n → value 256 (regroup n c []) ≡ c + 2 ^ n * 0

end_value : (n : ℕ) → n ≤ 7 → EndValue n
unfolding value regroup
end_value =
    by_bits EndValue (λ c p. omega arith) (λ c p. omega arith) (λ c p. omega arith)
      (λ c p. omega arith) (λ c p. omega arith) (λ c p. omega arith) (λ c p. omega arith)
      (λ c p. omega arith)

pub value-regroup :
    (n c : ℕ) (ds : List ℕ)
    → n ≤ 7
    → c < 2 ^ n
    → Digits 32 ds
    → value 256 (regroup n c ds) ≡ c + 2 ^ n * value 32 ds
unfolding value regroup
value-regroup n c [] hn hc h = end_value n hn c hc
value-regroup n c (d ∷ ds) hn hc h =
    let (bits, carry, low) = round_facts n hn c d hc h.0 in
    round_value n hn c d (value 32 ds) (regroup (next_bits n) (next_carry n c d) ds)
      (value-regroup (next_bits n) (next_carry n c d) ds bits carry h.1)

abbrev EndDigits : ℕ → Type 0
EndDigits n = (c : ℕ) → c < 2 ^ n → Digits 256 (regroup n c [])

end_digits : (n : ℕ) → n ≤ 7 → EndDigits n
unfolding regroup
end_digits =
    by_bits EndDigits (λ c p. tt) (λ c p. omega arith) (λ c p. omega arith) (λ c p. omega arith)
      (λ c p. omega arith) (λ c p. omega arith) (λ c p. omega arith) (λ c p. omega arith)

Digits-full_byte : (n c d : ℕ) (bs : List ℕ) → Digits 256 bs → Digits 256 (full_byte n c d bs)
Digits-full_byte n c d bs h = elim (Bool-cases (leb 8 (n + 5))) [
  | inl e ↦ rw e (omega arith, h)
  | inr e ↦ rw e h
]

pub Digits-regroup :
    (n c : ℕ) (ds : List ℕ) → n ≤ 7 → c < 2 ^ n → Digits 32 ds → Digits 256 (regroup n c ds)
unfolding regroup
Digits-regroup n c [] hn hc h = end_digits n hn c hc
Digits-regroup n c (d ∷ ds) hn hc h =
    let (bits, carry, low) = round_facts n hn c d hc h.0 in
    Digits-full_byte n c d _ (Digits-regroup (next_bits n) (next_carry n c d) ds bits carry h.1)

abbrev pub state : ℕ → ℕ → List ℕ → DecodeState
state n c out = record { carry = c; carry_bits = n; result = out }

abbrev RunsRound : ℕ → Type 0
RunsRound n =
    (c d : ℕ) (out : List ℕ)
    → total n c d < 4096
    → decode_round (state n c out) d
      ≡ state (next_bits n) (next_carry n c d) (full_byte n c d [] ++ out)

runs_round : (n : ℕ) → n ≤ 7 → RunsRound n
unfolding decode_round
runs_round =
    by_bits RunsRound (λ c d out h. ground (arith, low_byte (total 0 c d)))
      (λ c d out h. ground (arith, low_byte (total 1 c d)))
      (λ c d out h. ground (arith, low_byte (total 2 c d)))
      (λ c d out h. ground (arith, low_byte (total 3 c d)))
      (λ c d out h. ground (arith, low_byte (total 4 c d)))
      (λ c d out h. ground (arith, low_byte (total 5 c d)))
      (λ c d out h. ground (arith, low_byte (total 6 c d)))
      (λ c d out h. ground (arith, low_byte (total 7 c d)))

pow_bound : (n : ℕ) → n ≤ 7 → 2 ^ n < 256
pow_bound =
    by_bits (λ n. 2 ^ n < 256) (omega arith) (omega arith) (omega arith) (omega arith) (omega arith)
      (omega arith) (omega arith) (omega arith)

reverse-full_byte :
    (n c d : ℕ) (bs out : List ℕ)
    → reverse (full_byte n c d bs) ++ out ≡ reverse bs ++ (full_byte n c d [] ++ out)
reverse-full_byte n c d bs out = elim (Bool-cases (leb 8 (n + 5))) [
  | inl e ↦ rw e (pushed (total n c d % 2 ^ 8))
  | inr e ↦ rw e refl
]
  where
    pushed : (b : ℕ) → reverse (b ∷ bs) ++ out ≡ reverse bs ++ (b ∷ out)
    pushed b = ap (λ t. t ++ out) (reverse-cons b bs) ∙ append_assoc (reverse bs) (b ∷ []) out

-- The loop pushes the regrouped bytes.
pub decode_loop_lem :
    (n c : ℕ) (ds out : List ℕ)
    → n ≤ 7
    → c < 2 ^ n
    → Digits 32 ds
    → push_carry (decode_loop (state n c out) ds) ≡ reverse (regroup n c ds) ++ out
unfolding decode_loop regroup push_carry
decode_loop_lem zero c [] out hn hc h = refl
decode_loop_lem (suc n) c [] out hn hc h = ground (arith, pow_bound (suc n) hn)
decode_loop_lem n c (d ∷ ds) out hn hc h =
    let (bits, carry, low) = round_facts n hn c d hc h.0 in
    let rest = regroup (next_bits n) (next_carry n c d) ds in
    ap (λ s. push_carry (decode_loop s ds)) (runs_round n hn c d out low)
    ∙ decode_loop_lem (next_bits n) (next_carry n c d) ds (full_byte n c d [] ++ out) bits carry h.1
    ∙ sym (reverse-full_byte n c d rest out)

abbrev RoundLength : ℕ → Type 0
RoundLength n =
    (c d l : ℕ) (bs : List ℕ)
    → 8 * length bs ≤ next_bits n + l + 7
    → 8 * length (full_byte n c d bs) ≤ n + 5 + l + 7

round_length : (n : ℕ) → n ≤ 7 → RoundLength n
round_length =
    by_bits RoundLength (λ c d l bs p. omega arith) (λ c d l bs p. omega arith)
      (λ c d l bs p. omega arith) (λ c d l bs p. omega arith) (λ c d l bs p. omega arith)
      (λ c d l bs p. omega arith) (λ c d l bs p. omega arith) (λ c d l bs p. omega arith)

next_bits_bounded : (n : ℕ) → n ≤ 7 → next_bits n ≤ 7
next_bits_bounded n h = ground arith

pub length-regroup :
    (n c : ℕ) (ds : List ℕ) → n ≤ 7 → 8 * length (regroup n c ds) ≤ n + 5 * length ds + 7
unfolding regroup
length-regroup n c [] hn = ground arith
length-regroup n c (d ∷ ds) hn =
    let tail = regroup (next_bits n) (next_carry n c d) ds in
    let ih = length-regroup (next_bits n) (next_carry n c d) ds (next_bits_bounded n hn) in
    omega (arith, round_length n hn c d (5 * length ds) tail ih)
