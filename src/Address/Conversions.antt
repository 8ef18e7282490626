-- ===== src/Address/Conversions.antt =====
-- The conversions between Bitcoin and Stacks addresses in address/mod.rs. The hash function and the
-- base-58 coder are parameters.
pub mod RoundTrip
use stacks_encoding_native_j.Prelude.{
  ℕ, ◌≡◌, List, [], ◌∷◌, Option, none, some, ◌==◌, if◌then◌else◌, Outcome, ok, ◌>>=◌, ok_or,
  map_err, unwrap_or,
}
use stacks_encoding_native_j.Radix.{Digits}
use stacks_encoding_native_j.Address.StacksAddress.{
  StacksAddress, from_string, c32_address_version_mainnet_singlesig,
  c32_address_version_mainnet_multisig, c32_address_version_testnet_singlesig,
  c32_address_version_testnet_multisig,
}
use stacks_encoding_native_j.Address.Bitcoin.{
  BitcoinAddress, ConversionError, no_stacks_version, c32_failure, from_b58,
  address_type_to_version_byte, address_version_mainnet_singlesig, address_version_mainnet_multisig,
  address_version_testnet_singlesig, address_version_testnet_multisig,
}
use stacks_encoding_native_j.Address.Crockford.Check.{c32_address}

unfoldable pub btc_to_stx_addr_version_byte : ℕ → Option ℕ
btc_to_stx_addr_version_byte version =
    if version == address_version_mainnet_singlesig
    then some c32_address_version_mainnet_singlesig
    else if version == address_version_mainnet_multisig
    then some c32_address_version_mainnet_multisig
    else if version == address_version_testnet_singlesig
    then some c32_address_version_testnet_singlesig
    else if version == address_version_testnet_multisig
    then some c32_address_version_testnet_multisig
    else none

unfoldable pub stx_to_btc_version_byte : ℕ → Option ℕ
stx_to_btc_version_byte version =
    if version == c32_address_version_mainnet_singlesig
    then some address_version_mainnet_singlesig
    else if version == c32_address_version_mainnet_multisig
    then some address_version_mainnet_multisig
    else if version == c32_address_version_testnet_singlesig
    then some address_version_testnet_singlesig
    else if version == c32_address_version_testnet_multisig
    then some address_version_testnet_multisig
    else none

unfoldable pub btc_addr_to_stx_addr_version : BitcoinAddress → Outcome ConversionError ℕ
btc_addr_to_stx_addr_version addr =
    let btc_version = address_type_to_version_byte addr.addrtype addr.network_id in
    ok_or (btc_to_stx_addr_version_byte btc_version) (no_stacks_version btc_version)

unfoldable pub btc_addr_to_stx_addr : BitcoinAddress → Outcome ConversionError StacksAddress
btc_addr_to_stx_addr addr = do
  version ← btc_addr_to_stx_addr_version addr
  ok (record { version = version; hash160_bytes = addr.hash160_bytes })

-- A version without a counterpart is kept.
unfoldable pub btc_version_of : ℕ → ℕ
btc_version_of version = unwrap_or (stx_to_btc_version_byte version) version

-- `stx_addr_to_btc_addr`
unfoldable pub stx_addr_to_btc_addr : (List ℕ → List ℕ) → StacksAddress → List ℕ
stx_addr_to_btc_addr check_encode_slice addr =
    check_encode_slice (btc_version_of addr.version ∷ addr.hash160_bytes)

-- What b58.rs promises: decoding an encoded list of bytes gives it back.
pub record IsBase58 (check_encode_slice : List ℕ → List ℕ) (from_check : List ℕ → Option (List ℕ))
    : Type 0 where
  pub from_check-check_encode_slice :
      (bytes : List ℕ) → Digits 256 bytes → from_check (check_encode_slice bytes) ≡ some bytes

module _ (sha256 : List ℕ → List ℕ) (check_encode_slice : List ℕ → List ℕ)
    (from_check : List ℕ → Option (List ℕ)) where
  -- `stacks_to_bitcoin_address_internal`
  unfoldable pub stacks_to_bitcoin : List ℕ → Outcome ConversionError (List ℕ)
  stacks_to_bitcoin input = do
    stacks_address ← map_err c32_failure (from_string sha256 input)
    ok (stx_addr_to_btc_addr check_encode_slice stacks_address)

  -- `bitcoin_to_stacks_address`, behind its argument
  unfoldable pub bitcoin_to_stacks : List ℕ → Outcome ConversionError (List ℕ)
  bitcoin_to_stacks input = do
    bitcoin_address ← from_b58 from_check input
    stacks_addr ← btc_addr_to_stx_addr bitcoin_address
    map_err c32_failure (c32_address sha256 stacks_addr.version stacks_addr.hash160_bytes)
