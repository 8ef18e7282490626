-- ===== src/PostCondition/Deserialize.antt =====
-- The deserializers of post_condition/deserialize.rs.
use stacks_encoding_native_j.Prelude.{some, false, ◌==◌, if◌then◌else◌, map_err}
use stacks_encoding_native_j.Wire.Error.{
  unknown_asset_info_id, unknown_principal_id, bad_fungible_condition_code,
  bad_nonfungible_condition_code, bad_asset_value,
}
use stacks_encoding_native_j.Wire.Reader.{
  Reader, pure, ◌>>=◌, fail, ok_or, get_position, slice_from, read_exact,
}
use stacks_encoding_native_j.Wire.ByteOrder.{ByteOrder}
use stacks_encoding_native_j.Address.StacksAddress.{StacksAddress}
use stacks_encoding_native_j.Clarity.Types.{ClarityValue, clarity_value, Value}
use stacks_encoding_native_j.Clarity.Names.{read_clarity_name}
use stacks_encoding_native_j.Clarity.Deserialize.{deserialize}
use stacks_encoding_native_j.PostCondition.Types.{
  AssetInfo, PostConditionPrincipal, TransactionPostCondition, origin, standard, contract, stx,
  fungible, nonfungible, fungible_condition_code, nonfungible_condition_code,
}

-- The value inside a `ClarityValue`.
unfoldable pub value_of : ClarityValue → Value
value_of (clarity_value bytes v) = v

module _ (b : ByteOrder) where
  -- `StacksAddress::deserialize`
  unfoldable pub read_stacks_address : Reader StacksAddress
  read_stacks_address = do
    version ← b.read_u8
    hash160 ← read_exact 20
    pure (record { version = version; hash160_bytes = hash160 })

  -- `AssetInfo::deserialize`
  unfoldable pub read_asset_info : Reader AssetInfo
  read_asset_info = do
    contract_address ← read_stacks_address
    contract_name ← read_clarity_name b
    asset_name ← read_clarity_name b
    pure (record {
      contract_address = contract_address;
      contract_name = contract_name;
      asset_name = asset_name;
    })

  unfoldable pub read_standard : Reader PostConditionPrincipal
  read_standard = do addr ← read_stacks_address; pure (standard addr)

  unfoldable pub read_contract : Reader PostConditionPrincipal
  read_contract = do
    addr ← read_stacks_address
    contract_name ← read_clarity_name b
    pure (contract addr contract_name)

  -- `PostConditionPrincipal::deserialize`
  unfoldable pub read_principal : Reader PostConditionPrincipal
  read_principal = do
    principal_id ← b.read_u8
    if principal_id == 0x01
        then pure origin
        else if principal_id == 0x02
        then read_standard
        else if principal_id == 0x03
        then read_contract
        else fail (unknown_principal_id principal_id)

  unfoldable pub read_stx : Reader TransactionPostCondition
  read_stx = do
    principal ← read_principal
    condition_u8 ← b.read_u8
    amount ← b.read_u64
    condition_code ←
        ok_or (fungible_condition_code condition_u8) (bad_fungible_condition_code condition_u8)
    pure (stx principal condition_code amount)

  unfoldable pub read_fungible : Reader TransactionPostCondition
  read_fungible = do
    principal ← read_principal
    asset ← read_asset_info
    condition_u8 ← b.read_u8
    amount ← b.read_u64
    condition_code ←
        ok_or (fungible_condition_code condition_u8) (bad_fungible_condition_code condition_u8)
    pure (fungible principal asset condition_code amount)

  -- The value of an asset, with the bytes that it was read from.
  unfoldable pub read_asset_value : Reader ClarityValue
  read_asset_value = do
    cursor_pos ← get_position
    val ← (λ c. map_err bad_asset_value (deserialize b false c))
    decoded_bytes ← slice_from cursor_pos
    pure (clarity_value (some decoded_bytes) (value_of val))

  unfoldable pub read_nonfungible : Reader TransactionPostCondition
  read_nonfungible = do
    principal ← read_principal
    asset ← read_asset_info
    asset_value ← read_asset_value
    condition_u8 ← b.read_u8
    condition_code ←
        ok_or (nonfungible_condition_code condition_u8)
          (bad_nonfungible_condition_code condition_u8)
    pure (nonfungible principal asset asset_value condition_code)

  -- `TransactionPostCondition::deserialize`
  unfoldable pub read_post_condition : Reader TransactionPostCondition
  read_post_condition = do
    asset_info_id ← b.read_u8
    if asset_info_id == 0
        then read_stx
        else if asset_info_id == 1
        then read_fungible
        else if asset_info_id == 2
        then read_nonfungible
        else fail (unknown_asset_info_id asset_info_id)
