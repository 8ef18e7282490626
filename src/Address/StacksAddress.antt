-- ===== src/Address/StacksAddress.antt =====
-- address/stacks_address.rs: the address type, its versions and hash modes. `StacksAddress` is read
-- from the wire in post_condition/deserialize.rs.
use stacks_encoding_native_j.Address.Crockford.Defs.{C32Error}
use stacks_encoding_native_j.Address.Crockford.Check.{c32_address_decode}
use stacks_encoding_native_j.Prelude.{
  Outcome, ok, ◌>>=◌, ℕ, List, Option, none, some, ◌==◌, if◌then◌else◌,
}

abbrev pub c32_address_version_mainnet_singlesig : ℕ
c32_address_version_mainnet_singlesig = 22

abbrev pub c32_address_version_mainnet_multisig : ℕ
c32_address_version_mainnet_multisig = 20

abbrev pub c32_address_version_testnet_singlesig : ℕ
c32_address_version_testnet_singlesig = 26

abbrev pub c32_address_version_testnet_multisig : ℕ
c32_address_version_testnet_multisig = 21

pub record StacksAddress : Type 0 where
  pub version : ℕ
  pub hash160_bytes : List ℕ

-- `StacksAddress::from_string`, for a hash function `sha256`. The message for a failure wraps the
-- decoder's.
unfoldable pub from_string : (List ℕ → List ℕ) → List ℕ → Outcome C32Error StacksAddress
from_string sha256 s = do
  (version, bytes) ← c32_address_decode sha256 s
  ok (record { version = version; hash160_bytes = bytes })

pub data AddressHashMode : Type 0 where
  serialize_p2pkh serialize_p2sh serialize_p2wpkh serialize_p2wsh : AddressHashMode

unfoldable pub to_version_mainnet : AddressHashMode → ℕ
to_version_mainnet serialize_p2pkh = c32_address_version_mainnet_singlesig
to_version_mainnet _ = c32_address_version_mainnet_multisig

unfoldable pub to_version_testnet : AddressHashMode → ℕ
to_version_testnet serialize_p2pkh = c32_address_version_testnet_singlesig
to_version_testnet _ = c32_address_version_testnet_multisig

-- `AddressHashMode::try_from`
unfoldable pub hash_mode_from_u8 : ℕ → Option AddressHashMode
hash_mode_from_u8 value =
    if value == 0
    then some serialize_p2pkh
    else if value == 1
    then some serialize_p2sh
    else if value == 2
    then some serialize_p2wpkh
    else if value == 3
    then some serialize_p2wsh
    else none
