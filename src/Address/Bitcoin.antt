-- ===== src/Address/Bitcoin.antt =====
-- address/bitcoin_address.rs. The calls of b58.rs, a copy of a library's file, are parameters.
use stacks_encoding_native_j.Prelude.{
  ℕ, ◌≡◌, refl, Option, none, some, ◌==◌, if◌then◌else◌, List, length, take, drop, get_elem?,
  Outcome, ok, ◌>>=◌, ◌>>◌, guard, ok_or, or_panic,
}
use stacks_encoding_native_j.Address.Crockford.Defs.{C32Error}

abbrev pub address_version_mainnet_singlesig : ℕ
address_version_mainnet_singlesig = 0

abbrev pub address_version_mainnet_multisig : ℕ
address_version_mainnet_multisig = 5

abbrev pub address_version_testnet_singlesig : ℕ
address_version_testnet_singlesig = 111

abbrev pub address_version_testnet_multisig : ℕ
address_version_testnet_multisig = 196

pub data BitcoinAddressType : Type 0 where
  public_key_hash script_hash : BitcoinAddressType

pub data BitcoinNetworkType : Type 0 where
  mainnet testnet regtest : BitcoinNetworkType

unfoldable pub version_byte_to_address_type : ℕ → Option (BitcoinAddressType × BitcoinNetworkType)
version_byte_to_address_type version =
    if version == address_version_mainnet_singlesig
    then some (public_key_hash, mainnet)
    else if version == address_version_mainnet_multisig
    then some (script_hash, mainnet)
    else if version == address_version_testnet_singlesig
    then some (public_key_hash, testnet)
    else if version == address_version_testnet_multisig
    then some (script_hash, testnet)
    else none

unfoldable pub address_type_to_version_byte : BitcoinAddressType → BitcoinNetworkType → ℕ
address_type_to_version_byte public_key_hash mainnet = address_version_mainnet_singlesig
address_type_to_version_byte script_hash mainnet = address_version_mainnet_multisig
address_type_to_version_byte public_key_hash _ = address_version_testnet_singlesig
address_type_to_version_byte script_hash _ = address_version_testnet_multisig

pub record BitcoinAddress : Type 0 where
  pub addrtype : BitcoinAddressType
  pub network_id : BitcoinNetworkType
  pub hash160_bytes : List ℕ

-- The errors of the conversions between addresses, one constructor for each message.
pub data ConversionError : Type 0 where
  bad_base58 : ConversionError
  bad_length : ℕ → ConversionError
  unrecognized_version : ℕ → ConversionError
  no_stacks_version : ℕ → ConversionError
  c32_failure : C32Error → ConversionError

-- `from_b58`, for a decoder of base-58 text with a checksum.
unfoldable pub from_b58 :
    (List ℕ → Option (List ℕ)) → List ℕ → Outcome ConversionError BitcoinAddress
from_b58 from_check addrb58 = do
  bytes ← ok_or (from_check addrb58) bad_base58
  guard (length bytes == 21) (bad_length (length bytes))
  version ← or_panic (get_elem? bytes 0)
  (addrtype, network_id) ←
      ok_or (version_byte_to_address_type version) (unrecognized_version version)
  ok (record {
    addrtype = addrtype;
    network_id = network_id;
    hash160_bytes = take 20 (drop 1 bytes);
  })

-- The version bytes do not tell regtest from testnet.
abbrev pub public_network : BitcoinNetworkType → BitcoinNetworkType
public_network mainnet = mainnet
public_network testnet = testnet
public_network regtest = testnet

-- The version byte of an address type and a network gives both back, with testnet in place of
-- regtest.
pub version_byte_to_address_type-address_type_to_version_byte :
    (addrtype : BitcoinAddressType) (network_id : BitcoinNetworkType)
    → version_byte_to_address_type (address_type_to_version_byte addrtype network_id)
      ≡ some (addrtype, public_network network_id)
unfolding version_byte_to_address_type address_type_to_version_byte
version_byte_to_address_type-address_type_to_version_byte public_key_hash mainnet = refl
version_byte_to_address_type-address_type_to_version_byte public_key_hash testnet = refl
version_byte_to_address_type-address_type_to_version_byte public_key_hash regtest = refl
version_byte_to_address_type-address_type_to_version_byte script_hash mainnet = refl
version_byte_to_address_type-address_type_to_version_byte script_hash testnet = refl
version_byte_to_address_type-address_type_to_version_byte script_hash regtest = refl
