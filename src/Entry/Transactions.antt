-- ===== src/Entry/Transactions.antt =====
-- The entry point of src/stacks_tx/mod.rs. SHA-512/256 is a parameter.
use stacks_encoding_native_j.Prelude.{ℕ, List, Option, Outcome, ok, ◌>>=◌, map_err}
use stacks_encoding_native_j.Wire.ByteOrder.{ByteOrder}
use stacks_encoding_native_j.Js.{JsValue, string, object, empty_object, ◌&◌, ◌is◌}
use stacks_encoding_native_j.Clarity.Repr.{encode_hex}
use stacks_encoding_native_j.Transaction.Types.{StacksTransaction}
use stacks_encoding_native_j.Transaction.Deserialize.{read_transaction}
use stacks_encoding_native_j.Transaction.Encoder.{serialize_transaction}
use stacks_encoding_native_j.Entry.Arguments.{
  JsArgument, Thrown, deserializing, no_address, cursor_new, arg_as_bytes,
}

module _ (b : ByteOrder) (sha256 : List ℕ → List ℕ) (sha512_256 : List ℕ → List ℕ)
    (hex_encode : List ℕ → List ℕ) (hex_decode : List ℕ → Option (List ℕ)) where
  -- The callback: the transaction, and the digest of all bytes of the argument.
  unfoldable pub read_with_id : List ℕ → Outcome Thrown (StacksTransaction × List ℕ)
  read_with_id val_bytes = do
    (tx, cursor) ← map_err deserializing (read_transaction b (cursor_new val_bytes))
    ok (tx, sha512_256 val_bytes)

  unfoldable pub decode_transaction : Option JsArgument → Outcome Thrown JsValue
  decode_transaction arg = do
    (tx, tx_id_bytes) ← arg_as_bytes hex_decode arg read_with_id
    let identified = empty_object & "tx_id" is string (encode_hex sha256 hex_encode tx_id_bytes)
    tx_json_obj ← map_err no_address (serialize_transaction sha256 hex_encode tx identified)
    ok (object tx_json_obj)
