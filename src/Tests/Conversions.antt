-- ===== src/Tests/Conversions.antt =====
-- Instances of the theorems on address/mod.rs. Base 58 is replaced by the bytes themselves.
use stacks_encoding_native_j.Wire.ByteOrder.{big_endian-IsByteOrder}
use stacks_encoding_native_j.Prelude.{
  ℕ, ◌≡◌, refl, arith, List, [], ◌∷◌, ◌++◌, All-replicate, Option, some, codes, ok, ◌>>=◌, map_err,
  ◌<◌,
}
use stacks_encoding_native_j.Radix.{Digits}
use stacks_encoding_native_j.Text.Utf8.{
  is_utf8, is_utf8_from-ascii, from_utf8, is_utf8_from, utf8_next, utf8_lead,
}
use stacks_encoding_native_j.Address.Crockford.Check.{
  c32_address, c32_check_encode_prefixed, checksum,
}
use stacks_encoding_native_j.Address.Crockford.Tables.{c32_characters, digit_char}
use stacks_encoding_native_j.Address.Crockford.Defs.{
  c32_encode, c32_encode_to_buffer, get_max_c32_encode_output_len, encode_loop, encode_round,
  write_carry, add_zeros, remove_zeros, write_high, write,
}
use stacks_encoding_native_j.Address.Conversions.{
  IsBase58, stacks_to_bitcoin, bitcoin_to_stacks, stx_to_btc_version_byte,
  btc_to_stx_addr_version_byte, btc_addr_to_stx_addr, btc_addr_to_stx_addr_version,
}
use stacks_encoding_native_j.Address.Bitcoin.{
  from_b58, version_byte_to_address_type, address_type_to_version_byte,
}
use stacks_encoding_native_j.Address.Conversions.RoundTrip.{
  bitcoin_to_stacks-stacks_to_bitcoin, stacks_to_bitcoin-bitcoin_to_stacks,
}
use stacks_encoding_native_j.Address.Principal.{c32_failure, clarity_value_to_principal}
use stacks_encoding_native_j.Address.Principal.Encoded.{clarity_value_to_principal-serialize}
use stacks_encoding_native_j.Clarity.Types.{Value, StandardPrincipalData}
use stacks_encoding_native_j.Clarity.Serialize.{serialize_value, IsName}
use stacks_encoding_native_j.Wire.ByteOrder.{big_endian}
use stacks_encoding_native_j.Tests.Address.{digest, digest-IsSha256, hash_bytes}
use stacks_encoding_native_j.Tests.Transaction.{}

abbrev as_bytes : List ℕ → List ℕ
as_bytes bytes = bytes

abbrev from_bytes : List ℕ → Option (List ℕ)
from_bytes text = some text

bytes-IsBase58 : IsBase58 as_bytes from_bytes
bytes-IsBase58 = record { from_check-check_encode_slice = λ bytes d. refl }

abbrev pub stacks_text : List ℕ
stacks_text = codes "SP0A9954MJJA9954MJJA9954MJJA9954MGG20810"

pub stacks_text_made : c32_address digest 22 hash_bytes ≡ ok stacks_text
unfolding c32_address c32_check_encode_prefixed checksum c32_encode c32_encode_to_buffer
    get_max_c32_encode_output_len encode_loop encode_round c32_characters write_carry add_zeros
    remove_zeros digit_char write_high write from_utf8 is_utf8 is_utf8_from utf8_next utf8_lead
stacks_text_made = refl

pub hash_bytes-Digits : Digits 256 hash_bytes
hash_bytes-Digits = (omega arith, All-replicate (λ b. b < 256) 19 0xa4 (omega arith))

counterpart_of_22 : stx_to_btc_version_byte 22 ≡ some 0
unfolding stx_to_btc_version_byte
counterpart_of_22 = refl

bitcoin_to_stacks-stacks_to_bitcoin_example :
    (stacks_to_bitcoin digest as_bytes from_bytes stacks_text
      >>= bitcoin_to_stacks digest as_bytes from_bytes)
    ≡ ok stacks_text
bitcoin_to_stacks-stacks_to_bitcoin_example =
    bitcoin_to_stacks-stacks_to_bitcoin digest as_bytes from_bytes digest-IsSha256 bytes-IsBase58 22
      0 hash_bytes stacks_text counterpart_of_22 hash_bytes-Digits refl stacks_text_made

stacks_text_converted :
    bitcoin_to_stacks digest as_bytes from_bytes (0 ∷ hash_bytes) ≡ ok stacks_text
unfolding bitcoin_to_stacks from_b58 version_byte_to_address_type btc_addr_to_stx_addr
    btc_addr_to_stx_addr_version address_type_to_version_byte btc_to_stx_addr_version_byte
stacks_text_converted = rw stacks_text_made refl

stacks_to_bitcoin-bitcoin_to_stacks_example :
    stacks_to_bitcoin digest as_bytes from_bytes stacks_text ≡ ok (0 ∷ hash_bytes)
stacks_to_bitcoin-bitcoin_to_stacks_example =
    stacks_to_bitcoin-bitcoin_to_stacks digest as_bytes from_bytes digest-IsSha256 (0 ∷ hash_bytes)
      (0 ∷ hash_bytes) stacks_text refl (omega arith, hash_bytes-Digits) stacks_text_converted

abbrev issuer : StandardPrincipalData
issuer = record { version = 22; hash_bytes = hash_bytes }

abbrev contract : Value
contract = Value.principal_contract (record { issuer = issuer; name = codes "pool" })

pool-IsName : IsName (codes "pool")
unfolding is_utf8
pool-IsName = record {
  name_length = omega arith;
  name_utf8 =
      is_utf8_from-ascii (codes "pool")
        (omega arith, (omega arith, (omega arith, (omega arith, tt))));
}

clarity_value_to_principal-serialize_example :
    (clarity_value_to_principal big_endian digest
        (serialize_value (Value.principal_standard issuer) ++ (9 ∷ []))
      ≡ map_err c32_failure (c32_address digest 22 hash_bytes))
    × (clarity_value_to_principal big_endian digest (serialize_value contract ++ (9 ∷ [])) ≡ (do
      address ← map_err c32_failure (c32_address digest 22 hash_bytes)
      ok (codes "pool" ++ codes "." ++ address)))
clarity_value_to_principal-serialize_example =
    clarity_value_to_principal-serialize digest big_endian big_endian-IsByteOrder issuer
      (codes "pool") (9 ∷ []) (record { version_u8 = omega arith; hash_length = refl }) pool-IsName
