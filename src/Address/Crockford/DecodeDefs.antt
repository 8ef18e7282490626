-- ===== src/Address/Crockford/DecodeDefs.antt =====
-- The decoder of address/c32.rs: `c32_decode_ascii` with its loops, and `c32_decode`.
use stacks_encoding_native_j.Prelude.{ℕ, ◌+◌, ◌-◌, ◌*◌, ◌/◌, ◌%◌, ◌^◌, bit_and, List, [], ◌∷◌}
use stacks_encoding_native_j.Prelude.{reverse, ltb, leb, ◌==◌, Bool, true, ◌&&◌}
use stacks_encoding_native_j.Prelude.{if◌then◌else◌, Outcome, ok, err, ◌>>=◌, ok_or}
use stacks_encoding_native_j.Address.Crockford.Tables.{c32_digit}
use stacks_encoding_native_j.Address.Crockford.Defs.{C32Error, invalid_string}

-- The first loop, over the reversed input: the digits, last character first.
unfoldable pub read_digits : List ℕ → Outcome C32Error (List ℕ)
read_digits [] = ok []
read_digits (x ∷ xs) = do
  digit ← ok_or (c32_digit x) invalid_string
  digits ← read_digits xs
  ok (digit ∷ digits)

-- `result` holds the bytes pushed, the last one first.
pub record DecodeState : Type 0 where
  pub carry : ℕ
  pub carry_bits : ℕ
  pub result : List ℕ

-- One round of the second loop. The carry is a `u16`.
unfoldable pub decode_round : DecodeState → ℕ → DecodeState
decode_round s current_5bit =
    let carry = (s.carry + current_5bit * 2 ^ s.carry_bits % 2 ^ 16) % 2 ^ 16 in
    let carry_bits = s.carry_bits + 5 in
    if leb 8 carry_bits
    then record {
      carry = carry / 2 ^ 8;
      carry_bits = carry_bits - 8;
      result = bit_and carry (2 ^ 8 - 1) % 256 ∷ s.result;
    }
    else record { carry = carry; carry_bits = carry_bits; result = s.result }

unfoldable pub decode_loop : DecodeState → List ℕ → DecodeState
decode_loop s [] = s
decode_loop s (d ∷ ds) = decode_loop (decode_round s d) ds

unfoldable pub push_carry : DecodeState → List ℕ
push_carry s = if ltb 0 s.carry_bits then s.carry % 256 ∷ s.result else s.result

-- `truncate` while the last byte is a zero.
unfoldable pub truncate_zeros : List ℕ → List ℕ
truncate_zeros [] = []
truncate_zeros (b ∷ result) = if b == 0 then truncate_zeros result else b ∷ result

-- A zero for each digit zero that the text begins with.
unfoldable pub push_zeros : List ℕ → List ℕ → List ℕ
push_zeros [] result = result
push_zeros (d ∷ ds) result =
    let more = push_zeros ds (0 ∷ result) in if d == 0 then more else result

unfoldable pub decode_digits : List ℕ → List ℕ
decode_digits c32_digits =
    let start : DecodeState = record { carry = 0; carry_bits = 0; result = [] } in
    push_zeros (reverse c32_digits) (truncate_zeros (push_carry (decode_loop start c32_digits)))

unfoldable pub c32_decode_ascii : List ℕ → Outcome C32Error (List ℕ)
c32_decode_ascii input_str = do
  c32_digits ← read_digits (reverse input_str)
  ok (decode_digits c32_digits)

-- A `&str` is its bytes.
unfoldable pub is_ascii : List ℕ → Bool
is_ascii [] = true
is_ascii (b ∷ bs) = ltb b 128 && is_ascii bs

unfoldable pub c32_decode : List ℕ → Outcome C32Error (List ℕ)
unfolding is_ascii
c32_decode input_str = if is_ascii input_str then c32_decode_ascii input_str else err invalid_string
