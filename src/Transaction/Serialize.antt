-- ===== src/Transaction/Serialize.antt =====
-- A specification of the wire format of transactions, which stacks_tx/deserialize.rs reads.
use stacks_encoding_native_j.Prelude.{
  ℕ, ◌<◌, ◌^◌, ◌≡◌, Bool, true, false, List, ◌∷◌, ◌++◌, length, map, flatten, All,
}
use stacks_encoding_native_j.Wire.Laws.{to_be}
use stacks_encoding_native_j.Clarity.Types.{StandardPrincipalData}
use stacks_encoding_native_j.Clarity.Serialize.{serialize, serialize_name, IsName, IsWire}
use stacks_encoding_native_j.PostCondition.Serialize.{
  address_bytes, condition_bytes, IsAddress, IsConditionWire,
}
use stacks_encoding_native_j.Transaction.Types.{
  StacksTransaction, TransactionAuth, TransactionSpendingCondition, SinglesigSpendingCondition,
  MultisigSpendingCondition, TransactionAuthField, PrincipalData, TransactionContractCall,
  StacksMicroblockHeader, TransactionPayload, public_key, signature, compressed, uncompressed,
  singlesig, multisig, sponsored, token_transfer, contract_call, smart_contract, poison_microblock,
  coinbase,
}
use stacks_encoding_native_j.Transaction.Codes.{
  singlesig_u8, multisig_u8, key_encoding_u8, transaction_version_u8, anchor_mode_u8,
  post_condition_mode_u8,
}
use stacks_encoding_native_j.Transaction.Checked.{IsSinglesig}
use stacks_encoding_native_j.Transaction.Multisig.{IsMultisig}

-- Authorizations.
unfoldable pub key_field_u8 : Bool → ℕ
key_field_u8 true = 0x00
key_field_u8 false = 0x01

unfoldable pub field_bytes : TransactionAuthField → List ℕ
field_bytes (public_key k) = key_field_u8 k.is_compressed ∷ k.key
field_bytes (signature compressed s) = 0x02 ∷ s
field_bytes (signature uncompressed s) = 0x03 ∷ s

unfoldable pub singlesig_bytes : SinglesigSpendingCondition → List ℕ
singlesig_bytes cond =
    singlesig_u8 cond.hash_mode
    ∷ (cond.signer
        ++ (to_be 8 cond.nonce
            ++ (to_be 8 cond.tx_fee ++ (key_encoding_u8 cond.key_encoding ∷ cond.signature))))

unfoldable pub multisig_bytes : MultisigSpendingCondition → List ℕ
multisig_bytes cond =
    multisig_u8 cond.hash_mode
    ∷ (cond.signer
        ++ (to_be 8 cond.nonce
            ++ (to_be 8 cond.tx_fee
                ++ (to_be 4 (length cond.fields)
                    ++ (flatten (map field_bytes cond.fields)
                        ++ to_be 2 cond.signatures_required)))))

unfoldable pub spending_bytes : TransactionSpendingCondition → List ℕ
spending_bytes (singlesig cond) = singlesig_bytes cond
spending_bytes (multisig cond) = multisig_bytes cond

unfoldable pub auth_bytes : TransactionAuth → List ℕ
auth_bytes (TransactionAuth.standard origin_auth) = 0x04 ∷ spending_bytes origin_auth
auth_bytes (sponsored origin_auth sponsor_auth) =
    0x05 ∷ (spending_bytes origin_auth ++ spending_bytes sponsor_auth)

abbrev pub IsFieldWire : TransactionAuthField → Type 0
IsFieldWire (public_key k) = length k.key ≡ 33
IsFieldWire (signature e s) = length s ≡ 65

pub record IsSinglesigWire (cond : SinglesigSpendingCondition) : Type 0 where
  pub signer_length : length cond.signer ≡ 20
  pub nonce_u64 : cond.nonce < 256 ^ 8
  pub tx_fee_u64 : cond.tx_fee < 256 ^ 8
  pub signature_length : length cond.signature ≡ 65
  pub checked : IsSinglesig cond

pub record IsMultisigWire (cond : MultisigSpendingCondition) : Type 0 where
  pub signer_length : length cond.signer ≡ 20
  pub nonce_u64 : cond.nonce < 256 ^ 8
  pub tx_fee_u64 : cond.tx_fee < 256 ^ 8
  pub count_u32 : length cond.fields < 256 ^ 4
  pub all_fields : All IsFieldWire cond.fields
  pub required_u16 : cond.signatures_required < 256 ^ 2
  pub checked : IsMultisig cond

abbrev pub IsSpendingWire : TransactionSpendingCondition → Type 0
IsSpendingWire (singlesig cond) = IsSinglesigWire cond
IsSpendingWire (multisig cond) = IsMultisigWire cond

abbrev pub IsAuthWire : TransactionAuth → Type 0
IsAuthWire (TransactionAuth.standard origin_auth) = IsSpendingWire origin_auth
IsAuthWire (sponsored origin_auth sponsor_auth) =
    IsSpendingWire origin_auth × IsSpendingWire sponsor_auth

-- Payloads.
unfoldable pub account_bytes : StandardPrincipalData → List ℕ
account_bytes p = p.version ∷ p.hash_bytes

unfoldable pub principal_data_bytes : PrincipalData → List ℕ
principal_data_bytes (PrincipalData.standard p) = 0x05 ∷ account_bytes p
principal_data_bytes (PrincipalData.contract q) =
    0x06 ∷ (account_bytes q.issuer ++ serialize_name q.name)

unfoldable pub header_bytes : StacksMicroblockHeader → List ℕ
header_bytes h =
    h.version ∷ (to_be 2 h.sequence ++ (h.prev_block ++ (h.tx_merkle_root ++ h.signature)))

unfoldable pub payload_bytes : TransactionPayload → List ℕ
payload_bytes (token_transfer p amount memo) =
    0 ∷ (principal_data_bytes p ++ (to_be 8 amount ++ memo))
payload_bytes (smart_contract c) =
    1 ∷ (serialize_name c.name ++ (to_be 4 (length c.code_body) ++ c.code_body))
payload_bytes (contract_call c) =
    2
    ∷ (address_bytes c.address
        ++ (serialize_name c.contract_name
            ++ (serialize_name c.function_name
                ++ (to_be 4 (length c.function_args) ++ flatten (map serialize c.function_args)))))
payload_bytes (poison_microblock h1 h2) = 3 ∷ (header_bytes h1 ++ header_bytes h2)
payload_bytes (coinbase bytes) = 4 ∷ bytes

-- A header keeps its encoding.
pub record IsHeaderWire (h : StacksMicroblockHeader) : Type 0 where
  pub sequence_u16 : h.sequence < 256 ^ 2
  pub prev_length : length h.prev_block ≡ 32
  pub root_length : length h.tx_merkle_root ≡ 32
  pub signature_length : length h.signature ≡ 65
  pub kept : h.serialized_bytes ≡ header_bytes h

pub record IsCallWire (c : TransactionContractCall) : Type 0 where
  pub address : IsAddress c.address
  pub contract : IsName c.contract_name
  pub function : IsName c.function_name
  pub count_u32 : length c.function_args < 256 ^ 4
  pub all_args : All (λ v. IsWire true 16 v) c.function_args

abbrev pub IsPrincipalWire : PrincipalData → Type 0
IsPrincipalWire (PrincipalData.standard p) = length p.hash_bytes ≡ 20
IsPrincipalWire (PrincipalData.contract q) = (length q.issuer.hash_bytes ≡ 20) × IsName q.name

abbrev pub IsPayloadWire : TransactionPayload → Type 0
IsPayloadWire (token_transfer p amount memo) =
    IsPrincipalWire p × (amount < 256 ^ 8) × (length memo ≡ 34)
IsPayloadWire (smart_contract c) = IsName c.name × (length c.code_body < 256 ^ 4)
IsPayloadWire (contract_call c) = IsCallWire c
IsPayloadWire (poison_microblock h1 h2) = IsHeaderWire h1 × IsHeaderWire h2
IsPayloadWire (coinbase bytes) = length bytes ≡ 32

-- Transactions, which keep the encoding of their post-conditions.
unfoldable pub conditions_bytes : StacksTransaction → List ℕ
conditions_bytes tx =
    post_condition_mode_u8 tx.post_condition_mode
    ∷ (to_be 4 (length tx.post_conditions) ++ flatten (map condition_bytes tx.post_conditions))

unfoldable pub transaction_bytes : StacksTransaction → List ℕ
transaction_bytes tx =
    transaction_version_u8 tx.version
    ∷ (to_be 4 tx.chain_id
        ++ (auth_bytes tx.auth
            ++ (anchor_mode_u8 tx.anchor_mode ∷ (conditions_bytes tx ++ payload_bytes tx.payload))))

pub record IsTransactionWire (tx : StacksTransaction) : Type 0 where
  pub chain_u32 : tx.chain_id < 256 ^ 4
  pub auth : IsAuthWire tx.auth
  pub count_u32 : length tx.post_conditions < 256 ^ 4
  pub all_conditions : All IsConditionWire tx.post_conditions
  pub kept : tx.post_conditions_serialized ≡ conditions_bytes tx
  pub payload : IsPayloadWire tx.payload
