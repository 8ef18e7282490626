-- ===== src/Address/Crockford/Rounds.antt =====
-- The rounds of the encoder's loop in address/c32.rs, as writes of regrouped digits.
use stacks_encoding_native_j.Prelude.{ℕ, zero, suc, ◌+◌, ◌/◌, ◌%◌, ◌^◌, ◌≤◌, ◌<◌, ◌≡◌}
use stacks_encoding_native_j.Prelude.{
  refl, sym, ap, ◌∙◌, arith, List, [], ◌∷◌, length, bit_and_mask,
}
use stacks_encoding_native_j.Prelude.{ok, ◌>>=◌, leb, Bool-cases, inl, inr}
use stacks_encoding_native_j.Radix.{Digits}
use stacks_encoding_native_j.Address.Crockford.Tables.{digit_char, c32_characters-digit_char}
use stacks_encoding_native_j.Address.Crockford.Defs.{
  EncodeState, encode_round, encode_loop, write_carry,
}
use stacks_encoding_native_j.Address.Crockford.Digits.{low_digit, next_bits, next_carry}
use stacks_encoding_native_j.Address.Crockford.Digits.{high_digits, regroup, by_bits, round_facts}

abbrev pub state : ℕ → ℕ → List ℕ → EncodeState
state n c out = record { carry = c; carry_bits = n; written = out }

-- The characters of some digits, written one after the other.
unfoldable pub push : List ℕ → List ℕ → List ℕ
push [] out = out
push (d ∷ ds) out = push ds (digit_char d ∷ out)

abbrev RunsRound : ℕ → Type 0
RunsRound n =
    (size c v : ℕ) (out : List ℕ)
    → c < 2 ^ n
    → v < 256
    → length out + suc (length (high_digits n v [])) ≤ size
    → encode_round size (state n c out) v
      ≡ ok (state (next_bits n) (next_carry n v) (push (low_digit n c v ∷ high_digits n v []) out))

-- `encode_round` at a numeral number of carry bits, once for each.
RunsRound-0 : RunsRound 0
unfolding encode_round push
RunsRound-0 size c v out hc hv room =
    ground (arith, bit_and_mask v 5, c32_characters-digit_char (low_digit 0 c v))

RunsRound-1 : RunsRound 1
unfolding encode_round push
RunsRound-1 size c v out hc hv room =
    ground (arith, bit_and_mask v 4, c32_characters-digit_char (low_digit 1 c v))

RunsRound-2 : RunsRound 2
unfolding encode_round push
RunsRound-2 size c v out hc hv room = ground (
  arith,
  bit_and_mask v 3,
  c32_characters-digit_char (low_digit 2 c v),
  bit_and_mask (v / 2 ^ 3) 5,
  c32_characters-digit_char (v / 2 ^ 3 % 2 ^ 5),
)

RunsRound-3 : RunsRound 3
unfolding encode_round push
RunsRound-3 size c v out hc hv room = ground (
  arith,
  bit_and_mask v 2,
  c32_characters-digit_char (low_digit 3 c v),
  bit_and_mask (v / 2 ^ 2) 5,
  c32_characters-digit_char (v / 2 ^ 2 % 2 ^ 5),
)

RunsRound-4 : RunsRound 4
unfolding encode_round push
RunsRound-4 size c v out hc hv room = ground (
  arith,
  bit_and_mask v 1,
  c32_characters-digit_char (low_digit 4 c v),
  bit_and_mask (v / 2 ^ 1) 5,
  c32_characters-digit_char (v / 2 ^ 1 % 2 ^ 5),
)

runs_round : (n : ℕ) → n ≤ 4 → RunsRound n
runs_round = by_bits RunsRound RunsRound-0 RunsRound-1 RunsRound-2 RunsRound-3 RunsRound-4

high_digits_split :
    (n v : ℕ) (ds : List ℕ) → length (high_digits n v ds) ≡ length (high_digits n v []) + length ds
high_digits_split n v ds = ground arith

push-high_digits :
    (n v d : ℕ) (ds out : List ℕ)
    → push (d ∷ high_digits n v ds) out ≡ push ds (push (d ∷ high_digits n v []) out)
unfolding push
push-high_digits n v d ds out = elim (Bool-cases (leb 5 (n + 3))) [ inl e ↦ rw e | inr e ↦ rw e ]

pub length-push : (ds out : List ℕ) → length (push ds out) ≡ length ds + length out
unfolding push
length-push [] out = omega arith
length-push (d ∷ ds) out = omega (arith, length-push ds (digit_char d ∷ out))

writes_carry :
    (n size c : ℕ) (out : List ℕ)
    → n ≤ 4
    → c < 2 ^ n
    → length out + length (regroup n c []) ≤ size
    → write_carry size (state n c out) ≡ ok (push (regroup n c []) out)
unfolding write_carry push regroup
writes_carry zero size c out hn hc room = refl
writes_carry (suc n) size c out hn hc room = ground (
  arith,
  c32_characters-digit_char c,
  by_bits (λ k. 2 ^ k < 32) (omega arith) (omega arith) (omega arith) (omega arith) (omega arith)
      (suc n),
)

-- The loop and the last character write the digits, if the buffer has room for them.
pub encode_loop_lem :
    (n size c : ℕ) (vs out : List ℕ)
    → n ≤ 4
    → c < 2 ^ n
    → Digits 256 vs
    → length out + length (regroup n c vs) ≤ size
    → (encode_loop size (state n c out) vs >>= write_carry size) ≡ ok (push (regroup n c vs) out)
unfolding encode_loop regroup
encode_loop_lem n size c [] out hn hc h room = writes_carry n size c out hn hc room
encode_loop_lem n size c (v ∷ vs) out hn hc h room =
    let (bits, carry, low) = round_facts n hn c v hc h.0 in
    let tail = regroup (next_bits n) (next_carry n v) vs in
    let split = high_digits_split n v tail in
    let digits : List ℕ = low_digit n c v ∷ high_digits n v [] in
    rw (runs_round n hn size c v out hc h.0 (omega arith)) (
      encode_loop_lem (next_bits n) size (next_carry n v) vs (push digits out) bits carry h.1
        (omega (arith, length-push digits out))
      ∙ ap ok (sym (push-high_digits n v (low_digit n c v) tail out)))
