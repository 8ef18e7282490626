-- ===== src/Transaction/Deserialize.antt =====
-- `StacksTransaction::deserialize` of stacks_tx/deserialize.rs.
use stacks_encoding_native_j.Prelude.{ℕ, ◌==◌, if◌then◌else◌, Option, none, some, bit_and}
use stacks_encoding_native_j.Wire.Error.{invalid_anchor_mode, invalid_post_condition_mode}
use stacks_encoding_native_j.Wire.Reader.{
  Reader, pure, ◌>>=◌, ok_or, get_position, slice_from, read_vec,
}
use stacks_encoding_native_j.Wire.ByteOrder.{ByteOrder}
use stacks_encoding_native_j.PostCondition.Deserialize.{read_post_condition}
use stacks_encoding_native_j.Transaction.Auth.{read_auth}
use stacks_encoding_native_j.Transaction.Payload.{read_payload}
use stacks_encoding_native_j.Transaction.Types.{
  StacksTransaction, TransactionVersion, TransactionAnchorMode, TransactionPostConditionMode,
  mainnet, testnet, on_chain_only, off_chain_only, any, allow, deny,
}

-- The high bit of the version byte tells the networks apart.
unfoldable pub transaction_version : ℕ → TransactionVersion
transaction_version version_u8 = if bit_and version_u8 0x80 == 0 then mainnet else testnet

unfoldable pub anchor_mode_from_u8 : ℕ → Option TransactionAnchorMode
anchor_mode_from_u8 n =
    if n == 2
    then some off_chain_only
    else if n == 1
    then some on_chain_only
    else if n == 3
    then some any
    else none

unfoldable pub post_condition_mode_from_u8 : ℕ → Option TransactionPostConditionMode
post_condition_mode_from_u8 n =
    if n == 0x01 then some allow else if n == 0x02 then some deny else none

-- The modes are held against their values behind all reads.
unfoldable pub read_transaction : ByteOrder → Reader StacksTransaction
read_transaction b = do
  version_u8 ← b.read_u8
  chain_id ← b.read_u32
  auth ← read_auth b
  anchor_mode_u8 ← b.read_u8
  cursor_pos ← get_position
  post_condition_mode_u8 ← b.read_u8
  len ← b.read_u32
  post_conditions ← read_vec (read_post_condition b) len
  post_conditions_serialized ← slice_from cursor_pos
  payload ← read_payload b
  anchor_mode ← ok_or (anchor_mode_from_u8 anchor_mode_u8) (invalid_anchor_mode anchor_mode_u8)
  post_condition_mode ←
      ok_or (post_condition_mode_from_u8 post_condition_mode_u8)
        (invalid_post_condition_mode post_condition_mode_u8)
  pure (record {
    version = transaction_version version_u8;
    chain_id = chain_id;
    auth = auth;
    anchor_mode = anchor_mode;
    post_conditions_serialized = post_conditions_serialized;
    post_condition_mode = post_condition_mode;
    post_conditions = post_conditions;
    payload = payload;
  })
