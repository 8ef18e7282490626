-- ===== src/Transaction/PayloadEncoder.antt =====
-- The encoders of payloads in stacks_tx/neon_encoder.rs.
use stacks_encoding_native_j.Prelude.{
  ℕ, ◌%◌, ◌^◌, List, [], ◌∷◌, ◌++◌, false, Outcome, ok, ◌>>=◌, or_panic, length,
}
use stacks_encoding_native_j.Text.Decimal.{decimal}
use stacks_encoding_native_j.Js.{
  JsObject, JsItems, Encoded, string, number, object, array, empty_object, no_items, item, ◌&◌,
  ◌is◌,
}
use stacks_encoding_native_j.Address.Crockford.Defs.{C32Error}
use stacks_encoding_native_j.Address.Crockford.Check.{c32_address}
use stacks_encoding_native_j.Wire.Laws.{to_be}
use stacks_encoding_native_j.Clarity.Types.{ClarityValue, StandardPrincipalData}
use stacks_encoding_native_j.Clarity.TypePrefix
use stacks_encoding_native_j.Clarity.TypePrefix.{to_u8}
use stacks_encoding_native_j.Clarity.Repr.{encode_hex}
use stacks_encoding_native_j.Clarity.Encoder.{decode_clarity_val, serialized_bytes, from_utf8_lossy}
use stacks_encoding_native_j.Transaction.Types.{
  TransactionPayload, TransactionContractCall, TransactionSmartContract, StacksMicroblockHeader,
  PrincipalData,
}
use stacks_encoding_native_j.Transaction.Codes
use stacks_encoding_native_j.Transaction.Codes.{payload_id_u8}
use stacks_encoding_native_j.Transaction.ConditionEncoder.{serialize_stacks_address}

module _ (sha256 : List ℕ → List ℕ) (hex_encode : List ℕ → List ℕ) where
  unfoldable pub serialize_standard_principal : StandardPrincipalData → JsObject → Encoded
  serialize_standard_principal p obj = do
    let versioned = obj & "address_version" is number p.version
    let hash_hex = encode_hex sha256 hex_encode p.hash_bytes
    let hashed = versioned & "address_hash_bytes" is string hash_hex
    address_string ← c32_address sha256 p.version p.hash_bytes
    ok (hashed & "address" is string address_string)

  unfoldable pub serialize_principal_data : PrincipalData → JsObject → Encoded
  serialize_principal_data (PrincipalData.standard p) obj =
      serialize_standard_principal p
        (obj & "type_id" is number (to_u8 TypePrefix.TypePrefix.principal_standard))
  serialize_principal_data (PrincipalData.contract p) obj = serialize_standard_principal p.issuer (
      obj
      & "type_id" is number (to_u8 TypePrefix.TypePrefix.principal_contract)
      & "contract_name" is string p.name)

  -- The loop over the arguments: their bytes one after the other, and their objects.
  unfoldable pub serialize_args : List ClarityValue → Outcome C32Error (List ℕ × JsItems)
  serialize_args [] = ok ([], no_items)
  serialize_args (clarity_val ∷ args) = do
    bytes ← or_panic (serialized_bytes clarity_val)
    val_obj ← decode_clarity_val sha256 hex_encode clarity_val false bytes empty_object
    (raw, items) ← serialize_args args
    ok (bytes ++ raw, item (object val_obj) items)

  unfoldable pub serialize_contract_call : TransactionContractCall → JsObject → Encoded
  serialize_contract_call call obj = do
    addressed ← serialize_stacks_address sha256 hex_encode call.address obj
    let named =
        addressed
        & "contract_name" is string call.contract_name
        & "function_name" is string call.function_name
    let len = length call.function_args % 2 ^ 32
    (raw, items) ← serialize_args call.function_args
    ok (
        named
        & "function_args" is array len items
        & "function_args_buffer" is string (encode_hex sha256 hex_encode (to_be 4 len ++ raw)))

  unfoldable pub serialize_smart_contract : TransactionSmartContract → JsObject → JsObject
  serialize_smart_contract contract obj =
      obj
      & "contract_name" is string contract.name
      & "code_body" is string (from_utf8_lossy contract.code_body)

  unfoldable pub serialize_microblock_header : StacksMicroblockHeader → JsObject → JsObject
  serialize_microblock_header h obj =
      obj
      & "buffer" is string (encode_hex sha256 hex_encode h.serialized_bytes)
      & "version" is number h.version
      & "sequence" is number h.sequence
      & "prev_block" is string (encode_hex sha256 hex_encode h.prev_block)
      & "tx_merkle_root" is string (encode_hex sha256 hex_encode h.tx_merkle_root)
      & "signature" is string (encode_hex sha256 hex_encode h.signature)

  unfoldable pub serialize_payload : TransactionPayload → JsObject → Encoded
  serialize_payload (TransactionPayload.token_transfer address amount memo) obj = do
    let typed = obj & "type_id" is number (payload_id_u8 Codes.token_transfer)
    recipient_obj ← serialize_principal_data address empty_object
    ok (
        typed
        & "recipient" is object recipient_obj
        & "amount" is string (decimal amount)
        & "memo_hex" is string (encode_hex sha256 hex_encode memo))
  serialize_payload (TransactionPayload.contract_call call) obj =
      serialize_contract_call call (obj & "type_id" is number (payload_id_u8 Codes.contract_call))
  serialize_payload (TransactionPayload.smart_contract contract) obj = ok (
      serialize_smart_contract contract
        (obj & "type_id" is number (payload_id_u8 Codes.smart_contract)))
  serialize_payload (TransactionPayload.poison_microblock h1 h2) obj = ok (
      obj
      & "type_id" is number (payload_id_u8 Codes.poison_microblock)
      & "microblock_header_1" is object (serialize_microblock_header h1 empty_object)
      & "microblock_header_2" is object (serialize_microblock_header h2 empty_object))
  serialize_payload (TransactionPayload.coinbase buf) obj = ok (
      obj
      & "type_id" is number (payload_id_u8 Codes.coinbase)
      & "payload_buffer" is string (encode_hex sha256 hex_encode buf))
