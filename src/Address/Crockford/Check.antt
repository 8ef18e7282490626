-- ===== src/Address/Crockford/Check.antt =====
-- The checked strings of address/c32.rs: `c32_check_encode_prefixed`, `c32_check_decode`,
-- `c32_address` and `c32_address_decode`. SHA-256 is the `sha2` crate's, and a parameter.
use stacks_encoding_native_j.Prelude.{
  ℕ, ◌+◌, ◌-◌, ◌*◌, ◌^◌, ◌<◌, List, [], ◌∷◌, ◌++◌, length, take, drop,
}
use stacks_encoding_native_j.Prelude.{get_or, get_elem?, ltb, leb, ◌==◌, ◌&&◌, bit_or}
use stacks_encoding_native_j.Prelude.{if◌then◌else◌, Outcome, ok, err, panic, ◌>>=◌, ◌>>◌, unwrap}
use stacks_encoding_native_j.Prelude.{guard, or_panic, not, Bool, All, ◌≡◌}
use stacks_encoding_native_j.Text.Utf8.{from_utf8, is_boundary}
use stacks_encoding_native_j.Address.Crockford.Tables.{c32_characters}
use stacks_encoding_native_j.Address.Crockford.Defs.{
  C32Error, c32_encode_to_buffer, get_max_c32_encode_output_len, invalid_version, not_ascii,
  size_less_than_2, decoded_less_than_4, checksum_mismatch, could_not_convert, smaller_than_5,
}
use stacks_encoding_native_j.Address.Crockford.DecodeDefs.{c32_decode_ascii, is_ascii}

-- What the code relies on of a hash function: digests are 32 bytes.
pub record IsSha256 (sha256 : List ℕ → List ℕ) : Type 0 where
  pub digest_length : (bytes : List ℕ) → length (sha256 bytes) ≡ 32
  pub digest_bytes : (bytes : List ℕ) → All (λ b. b < 256) (sha256 bytes)

-- The first four bytes of the double hash, for a hash function `sha256`.
unfoldable pub checksum : (List ℕ → List ℕ) → List ℕ → List ℕ
checksum sha256 bytes = take 4 (sha256 (sha256 bytes))

-- The little-endian `u32` of four bytes, for an error message.
unfoldable pub le_u32 : List ℕ → ℕ
le_u32 sum =
    bit_or (bit_or (bit_or (get_or 0 sum 0) (get_or 0 sum 1 * 2 ^ 8)) (get_or 0 sum 2 * 2 ^ 16))
      (get_or 0 sum 3 * 2 ^ 24)

-- The slices of the checksum have four bytes, since the digest has 32.
unfoldable pub c32_check_encode_prefixed :
    (List ℕ → List ℕ) → ℕ → List ℕ → ℕ → Outcome C32Error (List ℕ)
c32_check_encode_prefixed sha256 version bytes prefix = do
  guard (ltb version 32) (invalid_version version)
  let buffer = bytes ++ checksum sha256 (version ∷ bytes)
  let capacity = get_max_c32_encode_output_len (length buffer) + 2
  version_char ← or_panic (get_elem? c32_characters version)
  written ← c32_encode_to_buffer buffer (capacity - 2)
  ok (prefix ∷ version_char ∷ written)

-- Whether the first four bytes agree, one by one.
unfoldable pub same_sum : List ℕ → List ℕ → Bool
same_sum computed expected =
    get_or 0 computed 0 == get_or 0 expected 0
    && get_or 0 computed 1 == get_or 0 expected 1
    && get_or 0 computed 2 == get_or 0 expected 2
    && get_or 0 computed 3 == get_or 0 expected 3

-- The second half of `c32_check_decode`, for the character of the version and the decoded bytes.
-- The bytes are converted to an array of 20, as the only caller asks for.
unfoldable pub check_sum : (List ℕ → List ℕ) → ℕ → List ℕ → Outcome C32Error (ℕ × List ℕ)
check_sum sha256 version data_sum_bytes = do
  guard (leb 4 (length data_sum_bytes)) decoded_less_than_4
  let data_bytes = take (length data_sum_bytes - 4) data_sum_bytes
  let expected_sum = drop (length data_sum_bytes - 4) data_sum_bytes
  decoded_version ← unwrap (c32_decode_ascii (version ∷ []))
  let computed_sum = sha256 (sha256 (decoded_version ++ data_bytes))
  guard (same_sum computed_sum expected_sum)
      (checksum_mismatch (le_u32 computed_sum) (le_u32 expected_sum))
  version ← or_panic (get_elem? decoded_version 0)
  guard (length data_bytes == 20) could_not_convert
  ok (version, data_bytes)

-- `split_first` on a string of two bytes or more.
unfoldable pub c32_check_decode : (List ℕ → List ℕ) → List ℕ → Outcome C32Error (ℕ × List ℕ)
c32_check_decode sha256 [] = err size_less_than_2
c32_check_decode sha256 (version ∷ rest) = do
  guard (is_ascii (version ∷ rest)) not_ascii
  guard (leb 2 (length (version ∷ rest))) size_less_than_2
  data_sum_bytes ← c32_decode_ascii rest
  check_sum sha256 version data_sum_bytes

-- `&s[1..]` on a string of six bytes or more.
unfoldable pub skip_first : List ℕ → Outcome C32Error (List ℕ)
skip_first [] = panic
skip_first (c ∷ rest) = if is_boundary (get_or 0 rest 0) then ok rest else panic

unfoldable pub c32_address_decode : (List ℕ → List ℕ) → List ℕ → Outcome C32Error (ℕ × List ℕ)
c32_address_decode sha256 c32_address_str = do
  guard (not (leb (length c32_address_str) 5)) smaller_than_5
  rest ← skip_first c32_address_str
  c32_check_decode sha256 rest

unfoldable pub c32_address : (List ℕ → List ℕ) → ℕ → List ℕ → Outcome C32Error (List ℕ)
c32_address sha256 version bytes = do
  text ← c32_check_encode_prefixed sha256 version bytes b'S'
  or_panic (from_utf8 text)
