-- ===== src/Transaction/Types.antt =====
-- The data of stacks_tx/deserialize.rs, and the conversions of its enums from bytes.
use stacks_encoding_native_j.Prelude.{ℕ, List, Bool, Option, none, some, ◌==◌, if◌then◌else◌}
use stacks_encoding_native_j.Address.StacksAddress.{StacksAddress}
use stacks_encoding_native_j.Clarity.Types.{
  ClarityName, ClarityValue, StandardPrincipalData, QualifiedContractIdentifier,
}
use stacks_encoding_native_j.PostCondition.Types.{TransactionPostCondition}

pub data TransactionVersion : Type 0 where
  mainnet testnet : TransactionVersion

pub data TransactionAnchorMode : Type 0 where
  on_chain_only off_chain_only any : TransactionAnchorMode

pub data TransactionPostConditionMode : Type 0 where
  allow deny : TransactionPostConditionMode

pub data SinglesigHashMode : Type 0 where
  p2pkh p2wpkh : SinglesigHashMode

pub data MultisigHashMode : Type 0 where
  p2sh p2wsh : MultisigHashMode

pub data TransactionPublicKeyEncoding : Type 0 where
  compressed uncompressed : TransactionPublicKeyEncoding

unfoldable pub singlesig_from_u8 : ℕ → Option SinglesigHashMode
singlesig_from_u8 n = if n == 0x00 then some p2pkh else if n == 0x02 then some p2wpkh else none

unfoldable pub multisig_from_u8 : ℕ → Option MultisigHashMode
multisig_from_u8 n = if n == 0x01 then some p2sh else if n == 0x03 then some p2wsh else none

unfoldable pub key_encoding_from_u8 : ℕ → Option TransactionPublicKeyEncoding
key_encoding_from_u8 n =
    if n == 0x00 then some compressed else if n == 0x01 then some uncompressed else none

-- The key's 33 bytes.
pub record Secp256k1PublicKey : Type 0 where
  pub key : List ℕ
  pub is_compressed : Bool

-- A signature is its 65 bytes.
pub data TransactionAuthField : Type 0 where
  public_key : Secp256k1PublicKey → TransactionAuthField
  signature : TransactionPublicKeyEncoding → List ℕ → TransactionAuthField

pub record MultisigSpendingCondition : Type 0 where
  pub hash_mode : MultisigHashMode
  pub signer : List ℕ
  pub nonce : ℕ
  pub tx_fee : ℕ
  pub fields : List TransactionAuthField
  pub signatures_required : ℕ

pub record SinglesigSpendingCondition : Type 0 where
  pub hash_mode : SinglesigHashMode
  pub signer : List ℕ
  pub nonce : ℕ
  pub tx_fee : ℕ
  pub key_encoding : TransactionPublicKeyEncoding
  pub signature : List ℕ

pub data TransactionSpendingCondition : Type 0 where
  singlesig : SinglesigSpendingCondition → TransactionSpendingCondition
  multisig : MultisigSpendingCondition → TransactionSpendingCondition

pub data TransactionAuth : Type 0 where
  standard : TransactionSpendingCondition → TransactionAuth
  sponsored : TransactionSpendingCondition → TransactionSpendingCondition → TransactionAuth

pub data PrincipalData : Type 0 where
  standard : StandardPrincipalData → PrincipalData
  contract : QualifiedContractIdentifier → PrincipalData

pub record TransactionContractCall : Type 0 where
  pub address : StacksAddress
  pub contract_name : ClarityName
  pub function_name : ClarityName
  pub function_args : List ClarityValue

pub record TransactionSmartContract : Type 0 where
  pub name : ClarityName
  pub code_body : List ℕ

pub record StacksMicroblockHeader : Type 0 where
  pub version : ℕ
  pub sequence : ℕ
  pub prev_block : List ℕ
  pub tx_merkle_root : List ℕ
  pub signature : List ℕ
  pub serialized_bytes : List ℕ

pub data TransactionPayload : Type 0 where
  token_transfer : PrincipalData → ℕ → List ℕ → TransactionPayload
  contract_call : TransactionContractCall → TransactionPayload
  smart_contract : TransactionSmartContract → TransactionPayload
  poison_microblock : StacksMicroblockHeader → StacksMicroblockHeader → TransactionPayload
  coinbase : List ℕ → TransactionPayload

pub record StacksTransaction : Type 0 where
  pub version : TransactionVersion
  pub chain_id : ℕ
  pub auth : TransactionAuth
  pub anchor_mode : TransactionAnchorMode
  pub post_conditions_serialized : List ℕ
  pub post_condition_mode : TransactionPostConditionMode
  pub post_conditions : List TransactionPostCondition
  pub payload : TransactionPayload
