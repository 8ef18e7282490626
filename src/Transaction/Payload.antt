-- ===== src/Transaction/Payload.antt =====
-- The payloads of stacks_tx/deserialize.rs.
use stacks_encoding_native_j.Prelude.{ℕ, ◌==◌, if◌then◌else◌, List, get_or, true}
use stacks_encoding_native_j.Wire.Error.{unknown_payload_id}
use stacks_encoding_native_j.Wire.Reader.{
  Reader, pure, ◌>>=◌, fail, fail_str, ok_or_str, get_position, slice_from, read_exact, read_vec,
}
use stacks_encoding_native_j.Wire.ByteOrder.{ByteOrder}
use stacks_encoding_native_j.PostCondition.Deserialize.{read_stacks_address}
use stacks_encoding_native_j.Clarity.TypePrefix
use stacks_encoding_native_j.Clarity.TypePrefix.{TypePrefix}
use stacks_encoding_native_j.Clarity.Types.{StandardPrincipalData}
use stacks_encoding_native_j.Clarity.Names.{read_clarity_name}
use stacks_encoding_native_j.Clarity.Deserialize.{deserialize}
use stacks_encoding_native_j.Transaction.Types.{
  PrincipalData, TransactionContractCall, TransactionSmartContract, StacksMicroblockHeader,
  TransactionPayload, token_transfer, contract_call, smart_contract, poison_microblock, coinbase,
}

-- `StandardPrincipalData::deserialize` of this file.
unfoldable pub read_tx_principal : Reader StandardPrincipalData
read_tx_principal = do
  version ← read_exact 1
  data_bytes ← read_exact 20
  pure (record { version = get_or 0 version 0; hash_bytes = data_bytes })

module _ (b : ByteOrder) where
  unfoldable pub read_standard_data : Reader PrincipalData
  read_standard_data = do principal ← read_tx_principal; pure (PrincipalData.standard principal)

  unfoldable pub read_contract_data : Reader PrincipalData
  read_contract_data = do
    issuer ← read_tx_principal
    name ← read_clarity_name b
    pure (PrincipalData.contract (record { issuer = issuer; name = name }))

  unfoldable pub read_principal_of : TypePrefix → Reader PrincipalData
  read_principal_of TypePrefix.principal_standard = read_standard_data
  read_principal_of TypePrefix.principal_contract = read_contract_data
  read_principal_of _ = fail_str

  -- `PrincipalData::deserialize`
  unfoldable pub read_principal_data : Reader PrincipalData
  read_principal_data = do
    header ← read_exact 1
    prefix ← ok_or_str (TypePrefix.from_u8 (get_or 0 header 0))
    read_principal_of prefix

  -- `StacksString::deserialize`
  unfoldable pub read_stacks_string : Reader (List ℕ)
  read_stacks_string = do len ← b.read_u32; read_exact len

  -- `StacksMicroblockHeader::deserialize`
  unfoldable pub read_microblock_header : Reader StacksMicroblockHeader
  read_microblock_header = do
    cursor_pos ← get_position
    version ← b.read_u8
    sequence ← b.read_u16
    prev_block ← read_exact 32
    tx_merkle_root ← read_exact 32
    signature_bytes ← read_exact 65
    serialized_bytes ← slice_from cursor_pos
    pure (record {
      version = version;
      sequence = sequence;
      prev_block = prev_block;
      tx_merkle_root = tx_merkle_root;
      signature = signature_bytes;
      serialized_bytes = serialized_bytes;
    })

  -- `TransactionSmartContract::deserialize`
  unfoldable pub read_smart_contract : Reader TransactionSmartContract
  read_smart_contract = do
    name ← read_clarity_name b
    code_body ← read_stacks_string
    pure (record { name = name; code_body = code_body })

  -- `TransactionContractCall::deserialize`
  unfoldable pub read_contract_call : Reader TransactionContractCall
  read_contract_call = do
    address ← read_stacks_address b
    contract_name ← read_clarity_name b
    function_name ← read_clarity_name b
    len ← b.read_u32
    function_args ← read_vec (deserialize b true) len
    pure (record {
      address = address;
      contract_name = contract_name;
      function_name = function_name;
      function_args = function_args;
    })

  unfoldable pub read_token_transfer : Reader TransactionPayload
  read_token_transfer = do
    principal ← read_principal_data
    amount ← b.read_u64
    memo_bytes ← read_exact 34
    pure (token_transfer principal amount memo_bytes)

  unfoldable pub read_contract_call_payload : Reader TransactionPayload
  read_contract_call_payload = do payload ← read_contract_call; pure (contract_call payload)

  unfoldable pub read_smart_contract_payload : Reader TransactionPayload
  read_smart_contract_payload = do payload ← read_smart_contract; pure (smart_contract payload)

  unfoldable pub read_poison_microblock : Reader TransactionPayload
  read_poison_microblock = do
    h1 ← read_microblock_header
    h2 ← read_microblock_header
    pure (poison_microblock h1 h2)

  unfoldable pub read_coinbase : Reader TransactionPayload
  read_coinbase = do payload_bytes ← read_exact 32; pure (coinbase payload_bytes)

  -- `TransactionPayload::deserialize`
  unfoldable pub read_payload : Reader TransactionPayload
  read_payload = do
    type_id ← b.read_u8
    if type_id == 0
        then read_token_transfer
        else if type_id == 2
        then read_contract_call_payload
        else if type_id == 1
        then read_smart_contract_payload
        else if type_id == 3
        then read_poison_microblock
        else if type_id == 4
        then read_coinbase
        else fail (unknown_payload_id type_id)
