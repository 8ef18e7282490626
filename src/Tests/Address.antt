-- ===== src/Tests/Address.antt =====
-- Runs of the coder of address/c32.rs, and instances of its theorems.
use stacks_encoding_native_j.Address.Crockford.BadVersion.{c32_address_decode-panic}
use stacks_encoding_native_j.Prelude.{some}
use stacks_encoding_native_j.Address.Bitcoin.{
  script_hash, regtest, testnet, version_byte_to_address_type, address_type_to_version_byte,
  version_byte_to_address_type-address_type_to_version_byte,
}
use stacks_encoding_native_j.Address.Crockford.DecodeDefs.{decode_digits}
use stacks_encoding_native_j.Address.Crockford.DecodeDefs.{decode_loop}
use stacks_encoding_native_j.Address.Crockford.DecodeDefs.{decode_round}
use stacks_encoding_native_j.Address.Crockford.DecodeDefs.{push_carry}
use stacks_encoding_native_j.Address.Crockford.DecodeDefs.{push_zeros}
use stacks_encoding_native_j.Address.Crockford.DecodeDefs.{read_digits}
use stacks_encoding_native_j.Address.Crockford.DecodeDefs.{truncate_zeros}
use stacks_encoding_native_j.Address.Crockford.Defs.{add_zeros}
use stacks_encoding_native_j.Address.Crockford.Defs.{encode_loop}
use stacks_encoding_native_j.Address.Crockford.Defs.{encode_round}
use stacks_encoding_native_j.Address.Crockford.Defs.{remove_zeros}
use stacks_encoding_native_j.Address.Crockford.Defs.{write_carry}
use stacks_encoding_native_j.Address.Crockford.Tables.{c32_characters}
use stacks_encoding_native_j.Address.Crockford.Tables.{c32_characters_map}
use stacks_encoding_native_j.Address.Crockford.Tables.{digit_char}
use stacks_encoding_native_j.Prelude.{
  ℕ, ◌%◌, ◌<◌, ◌≡◌, refl, arith, List, [], ◌∷◌, length, replicate, map,
}
use stacks_encoding_native_j.Prelude.{length-replicate, All-replicate, ok, panic, ◌>>=◌}
use stacks_encoding_native_j.Address.Crockford.Tables.{c32_digit, normalize}
use stacks_encoding_native_j.Address.Crockford.Defs.{
  c32_encode, get_max_c32_encode_output_len, c32_encode_to_buffer,
}
use stacks_encoding_native_j.Address.Crockford.DecodeDefs.{c32_decode, c32_decode_ascii}
use stacks_encoding_native_j.Address.Crockford.Encode.{IsEncoding, c32_encode_to_buffer-IsEncoding}
use stacks_encoding_native_j.Address.Crockford.Decode.{
  c32_decode-c32_encode, c32_encode-c32_decode_ascii,
}
use stacks_encoding_native_j.Address.Crockford.Check.{
  IsSha256, skip_first, c32_check_decode, check_sum, same_sum, c32_address, c32_address_decode,
}
use stacks_encoding_native_j.Address.Crockford.RoundTrip.{c32_address_decode-c32_address}
use stacks_encoding_native_j.Address.Crockford.Sound.{c32_address-c32_address_decode}
use stacks_encoding_native_j.Prelude.{
  drop, holds_below, holds_below-at, not, ◌≢◌, ◌==◌, ==_refl, true, subst,
}
use stacks_encoding_native_j.Text.Utf8.{is_boundary}
use stacks_encoding_native_j.Address.Crockford.DecodeDefs.{is_ascii}

-- A hash function that only looks at the length.
abbrev pub digest : List ℕ → List ℕ
digest bytes = replicate 32 (length bytes % 256)

pub digest-IsSha256 : IsSha256 digest
digest-IsSha256 = record {
  digest_length = λ bytes. length-replicate 32 (length bytes % 256);
  digest_bytes = λ bytes. All-replicate (λ b. b < 256) 32 (length bytes % 256) (omega arith);
}

abbrev pub hash_bytes : List ℕ
hash_bytes = 0 ∷ replicate 19 0xa4

c32_address_decode-c32_address_example :
    (c32_address digest 22 hash_bytes >>= c32_address_decode digest) ≡ ok (22, hash_bytes)
c32_address_decode-c32_address_example =
    c32_address_decode-c32_address digest digest-IsSha256 22 hash_bytes (omega arith)
      (omega arith, All-replicate (λ b. b < 256) 19 0xa4 (omega arith)) refl

abbrev three_bytes : List ℕ
three_bytes = 0x00 ∷ 0xa4 ∷ 0x6f ∷ []

c32_decode-c32_encode_example : (c32_encode three_bytes >>= c32_decode) ≡ ok three_bytes
c32_decode-c32_encode_example =
    c32_decode-c32_encode three_bytes (omega arith, (omega arith, (omega arith, tt)))

c32_encode_to_buffer-IsEncoding_example :
    (out : List ℕ) × (c32_encode_to_buffer three_bytes 10 ≡ ok out) × IsEncoding three_bytes out
c32_encode_to_buffer-IsEncoding_example =
    c32_encode_to_buffer-IsEncoding three_bytes 10 (omega arith, (omega arith, (omega arith, tt)))
      (unfold get_max_c32_encode_output_len in omega arith)

-- "o" and "l" are read as "0" and "1".
abbrev spelled : List ℕ
spelled = b'o' ∷ b'l' ∷ b'a' ∷ []

spelled_decoded : c32_decode_ascii spelled ≡ ok (0x00 ∷ 0x2a ∷ [])
unfolding c32_decode_ascii read_digits c32_digit c32_characters_map decode_digits push_zeros
    truncate_zeros push_carry decode_loop decode_round
spelled_decoded = refl

c32_encode-c32_decode_ascii_example : c32_encode (0x00 ∷ 0x2a ∷ []) ≡ ok (map normalize spelled)
c32_encode-c32_decode_ascii_example =
    c32_encode-c32_decode_ascii spelled (0x00 ∷ 0x2a ∷ []) spelled_decoded

encode_0x22 : c32_encode (0x22 ∷ []) ≡ ok (b'1' ∷ b'2' ∷ [])
unfolding c32_encode c32_encode_to_buffer get_max_c32_encode_output_len encode_loop encode_round
    c32_characters write_carry add_zeros remove_zeros digit_char
encode_0x22 = refl

-- The text of an address with another first letter, and in lower case.
abbrev lower_case : List ℕ
lower_case =
    b'X' ∷ b'p' ∷ b'0' ∷ b'a' ∷ b'9' ∷ b'9' ∷ b'5' ∷ b'4' ∷ b'm' ∷ b'j' ∷ b'j' ∷ b'a' ∷ b'9' ∷ b'9'
    ∷ b'5' ∷ b'4' ∷ b'm' ∷ b'j' ∷ b'j' ∷ b'a' ∷ b'9' ∷ b'9' ∷ b'5' ∷ b'4' ∷ b'm' ∷ b'j' ∷ b'j'
    ∷ b'a' ∷ b'9' ∷ b'9' ∷ b'5' ∷ b'4' ∷ b'm' ∷ b'g' ∷ b'g' ∷ b'2' ∷ b'0' ∷ b'8' ∷ b'1' ∷ b'0' ∷ []

lower_case_decoded : c32_address_decode digest lower_case ≡ ok (22, hash_bytes)
unfolding c32_address_decode skip_first is_boundary c32_check_decode check_sum same_sum is_ascii
    c32_decode_ascii read_digits c32_digit c32_characters_map decode_digits push_zeros
    truncate_zeros push_carry decode_loop decode_round
lower_case_decoded = refl

c32_address-c32_address_decode_example :
    c32_address digest 22 hash_bytes ≡ ok (b'S' ∷ map normalize (drop 1 lower_case))
c32_address-c32_address_decode_example =
    c32_address-c32_address_decode digest digest-IsSha256 lower_case 22 hash_bytes
      lower_case_decoded

-- The letter U is none of the alphabet.
outside_table : holds_below 32 (λ d. not (digit_char d == normalize b'U')) ≡ true
unfolding holds_below digit_char normalize
outside_table = refl

outside_alphabet : (d : ℕ) → d < 32 → digit_char d ≢ normalize b'U'
outside_alphabet d h e =
    let differs = holds_below-at 32 (λ c. not (digit_char c == normalize b'U')) d outside_table h in
    let equal = subst (λ x. (digit_char d == x) ≡ true) e (==_refl (digit_char d)) in
    ground (arith, differs, equal)

c32_address_decode-panic_example :
    c32_address_decode digest (b'S' ∷ b'U' ∷ map normalize (drop 2 lower_case)) ≡ panic
c32_address_decode-panic_example =
    c32_address_decode-panic digest digest-IsSha256 22 hash_bytes b'S' (normalize b'p')
      (map normalize (drop 2 lower_case)) b'U' (omega arith)
      (omega arith, All-replicate (λ b. b < 256) 19 0xa4 (omega arith)) refl
      (c32_address-c32_address_decode digest digest-IsSha256 lower_case 22 hash_bytes
        lower_case_decoded)
      (omega arith) outside_alphabet

version_byte_to_address_type-address_type_to_version_byte_example :
    version_byte_to_address_type (address_type_to_version_byte script_hash regtest)
    ≡ some (script_hash, testnet)
version_byte_to_address_type-address_type_to_version_byte_example =
    version_byte_to_address_type-address_type_to_version_byte script_hash regtest
