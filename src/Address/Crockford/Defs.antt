-- ===== src/Address/Crockford/Defs.antt =====
-- The encoder of address/c32.rs: `c32_encode`, `get_max_c32_encode_output_len` and
-- `c32_encode_to_buffer` with its loops.
use stacks_encoding_native_j.Prelude.{ℕ, ◌+◌, ◌-◌, ◌*◌, ◌/◌, ◌%◌, ◌^◌, bit_and, List, []}
use stacks_encoding_native_j.Prelude.{◌∷◌, reverse, length, get_elem?, ltb, leb, ◌==◌}
use stacks_encoding_native_j.Prelude.{if◌then◌else◌, Outcome, ok, err, panic, ◌>>=◌, or_panic}
use stacks_encoding_native_j.Address.Crockford.Tables.{c32_characters, digit_char}

-- The messages of this file's errors.
pub data C32Error : Type 0 where
  -- the size that was given, and the size that is needed
  buffer_too_small : ℕ → ℕ → C32Error
  invalid_string : C32Error
  invalid_version : ℕ → C32Error
  not_ascii : C32Error
  size_less_than_2 : C32Error
  decoded_less_than_4 : C32Error
  -- the computed and the expected sum, as little-endian `u32`s
  checksum_mismatch : ℕ → ℕ → C32Error
  could_not_convert : C32Error
  smaller_than_5 : C32Error

-- The product of an `f64` quotient by 8, cut to an integer. An `f64` is exact here up to the last
-- bit of the quotient for every length below 2 ^ 50, and a multiple of 1 / 5 that is no integer is
-- farther than that from one.
unfoldable pub get_max_c32_encode_output_len : ℕ → ℕ
get_max_c32_encode_output_len input_len = (input_len + input_len % 5) * 8 / 5

-- `output_buffer[position] = c; position += 1`. The list is `output_buffer[..position]`, the last
-- byte that was written first; what lies behind `position` is never read.
unfoldable pub write : ℕ → List ℕ → ℕ → Outcome C32Error (List ℕ)
write size written c = if ltb (length written) size then ok (c ∷ written) else panic

pub record EncodeState : Type 0 where
  pub carry : ℕ
  pub carry_bits : ℕ
  pub written : List ℕ

-- `if carry_bits >= 5`: five of the bits that are left over make one more character.
unfoldable pub write_high : ℕ → EncodeState → Outcome C32Error EncodeState
unfolding write
write_high size s =
    let more : Outcome C32Error EncodeState = do
      c ← or_panic (get_elem? c32_characters (bit_and s.carry (2 ^ 5 - 1)))
      written ← write size s.written c
      ok (record { carry = s.carry / 2 ^ 5; carry_bits = s.carry_bits - 5; written = written })
    in if leb 5 s.carry_bits then more else ok s

-- One round of the loop over the input, for one byte.
unfoldable pub encode_round : ℕ → EncodeState → ℕ → Outcome C32Error EncodeState
unfolding write write_high
encode_round size s current_value = do
  let low_bits_to_take = 5 - s.carry_bits
  let low_bits = bit_and current_value (2 ^ low_bits_to_take - 1)
  let c32_value = low_bits * 2 ^ s.carry_bits % 256 + s.carry
  c ← or_panic (get_elem? c32_characters c32_value)
  written ← write size s.written c
  let carry_bits = 8 + s.carry_bits - 5
  let carry = current_value / 2 ^ (8 - carry_bits)
  write_high size (record { carry = carry; carry_bits = carry_bits; written = written })

-- The loop, over the reversed input.
unfoldable pub encode_loop : ℕ → EncodeState → List ℕ → Outcome C32Error EncodeState
encode_loop size s [] = ok s
encode_loop size s (v ∷ vs) = do s ← encode_round size s v; encode_loop size s vs

-- The last character, if bits are left over.
unfoldable pub write_carry : ℕ → EncodeState → Outcome C32Error (List ℕ)
unfolding write
write_carry size s =
    let more : Outcome C32Error (List ℕ) = do
      c ← or_panic (get_elem? c32_characters s.carry)
      write size s.written c
    in if ltb 0 s.carry_bits then more else ok s.written

-- `position -= 1` while the last character written is the first of the alphabet.
unfoldable pub remove_zeros : List ℕ → List ℕ
remove_zeros [] = []
remove_zeros (c ∷ written) = if c == digit_char 0 then remove_zeros written else c ∷ written

-- A first character for each zero that the input begins with.
unfoldable pub add_zeros : ℕ → List ℕ → List ℕ → Outcome C32Error (List ℕ)
unfolding write
add_zeros size [] written = ok written
add_zeros size (v ∷ vs) written =
    let more : Outcome C32Error (List ℕ) = do
      written ← write size written (digit_char 0)
      add_zeros size vs written
    in if v == 0 then more else ok written

-- The bytes `output_buffer[..n]` for the `n` that the function returns, given the buffer's size:
-- reversed, they are what was written, the last byte first.
unfoldable pub c32_encode_to_buffer : List ℕ → ℕ → Outcome C32Error (List ℕ)
c32_encode_to_buffer input_bytes size =
    let min_len = get_max_c32_encode_output_len (length input_bytes) in
    let start : EncodeState = record { carry = 0; carry_bits = 0; written = [] } in
    let run : Outcome C32Error (List ℕ) = do
      s ← encode_loop size start (reverse input_bytes)
      written ← write_carry size s
      add_zeros size input_bytes (remove_zeros written)
    in if ltb size min_len then err (buffer_too_small size min_len) else run

-- The buffer that is handed over has the size that is needed. The characters are ASCII, so that
-- the conversion to a `String` keeps them.
unfoldable pub c32_encode : List ℕ → Outcome C32Error (List ℕ)
c32_encode input_bytes =
    c32_encode_to_buffer input_bytes (get_max_c32_encode_output_len (length input_bytes))
