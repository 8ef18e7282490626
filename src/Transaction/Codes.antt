-- ===== src/Transaction/Codes.antt =====
-- The discriminants of the enums of stacks_tx/deserialize.rs, as `as u8` gives them.
use stacks_encoding_native_j.Prelude.{ℕ}
use stacks_encoding_native_j.Transaction.Types.{
  TransactionVersion, TransactionAnchorMode, TransactionPostConditionMode, SinglesigHashMode,
  MultisigHashMode, TransactionPublicKeyEncoding,
}

pub data TransactionAuthFlags : Type 0 where
  auth_standard auth_sponsored : TransactionAuthFlags

pub data TransactionAuthFieldId : Type 0 where
  public_key_compressed public_key_uncompressed : TransactionAuthFieldId
  signature_compressed signature_uncompressed : TransactionAuthFieldId

pub data TransactionPayloadId : Type 0 where
  token_transfer smart_contract contract_call poison_microblock coinbase : TransactionPayloadId

unfoldable pub auth_flags_u8 : TransactionAuthFlags → ℕ
auth_flags_u8 auth_standard = 0x04
auth_flags_u8 auth_sponsored = 0x05

unfoldable pub auth_field_id_u8 : TransactionAuthFieldId → ℕ
auth_field_id_u8 public_key_compressed = 0x00
auth_field_id_u8 public_key_uncompressed = 0x01
auth_field_id_u8 signature_compressed = 0x02
auth_field_id_u8 signature_uncompressed = 0x03

unfoldable pub payload_id_u8 : TransactionPayloadId → ℕ
payload_id_u8 token_transfer = 0
payload_id_u8 smart_contract = 1
payload_id_u8 contract_call = 2
payload_id_u8 poison_microblock = 3
payload_id_u8 coinbase = 4

unfoldable pub transaction_version_u8 : TransactionVersion → ℕ
transaction_version_u8 TransactionVersion.mainnet = 0x00
transaction_version_u8 TransactionVersion.testnet = 0x80

unfoldable pub anchor_mode_u8 : TransactionAnchorMode → ℕ
anchor_mode_u8 TransactionAnchorMode.on_chain_only = 1
anchor_mode_u8 TransactionAnchorMode.off_chain_only = 2
anchor_mode_u8 TransactionAnchorMode.any = 3

unfoldable pub post_condition_mode_u8 : TransactionPostConditionMode → ℕ
post_condition_mode_u8 TransactionPostConditionMode.allow = 0x01
post_condition_mode_u8 TransactionPostConditionMode.deny = 0x02

unfoldable pub singlesig_u8 : SinglesigHashMode → ℕ
singlesig_u8 SinglesigHashMode.p2pkh = 0x00
singlesig_u8 SinglesigHashMode.p2wpkh = 0x02

unfoldable pub multisig_u8 : MultisigHashMode → ℕ
multisig_u8 MultisigHashMode.p2sh = 0x01
multisig_u8 MultisigHashMode.p2wsh = 0x03

unfoldable pub key_encoding_u8 : TransactionPublicKeyEncoding → ℕ
key_encoding_u8 TransactionPublicKeyEncoding.compressed = 0x00
key_encoding_u8 TransactionPublicKeyEncoding.uncompressed = 0x01
