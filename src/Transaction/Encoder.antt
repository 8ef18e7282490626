-- ===== src/Transaction/Encoder.antt =====
-- The encoder of transactions in stacks_tx/neon_encoder.rs.
use stacks_encoding_native_j.Prelude.{ℕ, List, [], ◌∷◌, Outcome, ok, ◌>>=◌, length, ◌%◌, ◌^◌}
use stacks_encoding_native_j.Js.{
  JsObject, JsItems, Encoded, string, number, object, array, empty_object, no_items, item, ◌&◌,
  ◌is◌,
}
use stacks_encoding_native_j.Address.Crockford.Defs.{C32Error}
use stacks_encoding_native_j.Clarity.Repr.{encode_hex}
use stacks_encoding_native_j.PostCondition.Types.{TransactionPostCondition}
use stacks_encoding_native_j.Transaction.Types.{StacksTransaction}
use stacks_encoding_native_j.Transaction.Codes.{
  transaction_version_u8, anchor_mode_u8, post_condition_mode_u8,
}
use stacks_encoding_native_j.Transaction.AuthEncoder.{serialize_auth}
use stacks_encoding_native_j.Transaction.PayloadEncoder.{serialize_payload}
use stacks_encoding_native_j.Transaction.ConditionEncoder.{serialize_post_condition}

module _ (sha256 : List ℕ → List ℕ) (hex_encode : List ℕ → List ℕ) where
  unfoldable pub serialize_post_conditions :
      List TransactionPostCondition → Outcome C32Error JsItems
  serialize_post_conditions [] = ok no_items
  serialize_post_conditions (x ∷ conditions) = do
    post_condition_obj ← serialize_post_condition sha256 hex_encode x empty_object
    items ← serialize_post_conditions conditions
    ok (item (object post_condition_obj) items)

  unfoldable pub serialize_transaction : StacksTransaction → JsObject → Encoded
  serialize_transaction tx obj = do
    let numbered =
        obj
        & "version" is number (transaction_version_u8 tx.version)
        & "chain_id" is number tx.chain_id
    auth_obj ← serialize_auth sha256 hex_encode tx.auth tx.version empty_object
    let authorized =
        numbered
        & "auth" is object auth_obj
        & "anchor_mode" is number (anchor_mode_u8 tx.anchor_mode)
        & "post_condition_mode" is number (post_condition_mode_u8 tx.post_condition_mode)
    items ← serialize_post_conditions tx.post_conditions
    let buffer_hex = encode_hex sha256 hex_encode tx.post_conditions_serialized
    let conditioned =
        authorized
        & "post_conditions" is array (length tx.post_conditions % 2 ^ 32) items
        & "post_conditions_buffer" is string buffer_hex
    payload_obj ← serialize_payload sha256 hex_encode tx.payload empty_object
    ok (conditioned & "payload" is object payload_obj)
