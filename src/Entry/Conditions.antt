-- ===== src/Entry/Conditions.antt =====
-- The entry point of src/post_condition/mod.rs.
use stacks_encoding_native_j.Prelude.{
  ℕ, suc, List, take, drop, length, Option, ltb, get_elem?, if◌then◌else◌, Outcome, ok, ◌>>=◌,
  map_err, or_panic,
}
use stacks_encoding_native_j.Wire.Cursor.{Cursor}
use stacks_encoding_native_j.Wire.Reader.{from_be_bytes}
use stacks_encoding_native_j.Wire.ByteOrder.{ByteOrder}
use stacks_encoding_native_j.Js.{
  JsValue, JsItems, number, object, array, empty_object, no_items, ◌&◌, ◌is◌,
}
use stacks_encoding_native_j.PostCondition.Deserialize.{read_post_condition}
use stacks_encoding_native_j.PostCondition.Encoder.{encode_post_condition}
use stacks_encoding_native_j.Entry.Loop.{read_while}
use stacks_encoding_native_j.Entry.Arguments.{
  JsArgument, Thrown, deserializing, no_address, cursor_new, arg_bytes,
}

module _ (b : ByteOrder) (sha256 : List ℕ → List ℕ) (hex_encode : List ℕ → List ℕ)
    (hex_decode : List ℕ → Option (List ℕ)) where
  -- One pass of the loop.
  unfoldable pub next_condition : Cursor → Outcome Thrown (JsValue × Cursor)
  next_condition cursor = do
    (post_condition, behind) ← map_err deserializing (read_post_condition b cursor)
    value_obj ←
        map_err no_address (encode_post_condition sha256 hex_encode post_condition empty_object)
    ok (object value_obj, behind)

  -- The loop, with more passes than there are bytes.
  unfoldable pub read_conditions : List ℕ → Outcome Thrown JsItems
  read_conditions bytes =
      read_while next_condition (suc (length bytes)) (length bytes) (cursor_new bytes)

  -- The array of post-conditions behind the mode. The slice of four bytes is never too short here.
  unfoldable pub post_conditions_array : List ℕ → Outcome Thrown JsValue
  post_conditions_array input_bytes =
      let bytes = drop 5 input_bytes in
      let announced = from_be_bytes (take 4 (drop 1 input_bytes)) in
      if ltb 4 (length input_bytes)
      then (do items ← read_conditions bytes; ok (array announced items))
      else ok (array 0 no_items)

  -- `input_bytes[0]` panics on an empty input.
  unfoldable pub decode_tx_post_conditions : Option JsArgument → Outcome Thrown JsValue
  decode_tx_post_conditions arg = do
    input_bytes ← arg_bytes hex_decode arg
    post_condition_mode ← or_panic (get_elem? input_bytes 0)
    array_result ← post_conditions_array input_bytes
    ok (
        object (
          empty_object
          & "post_condition_mode" is number post_condition_mode
          & "post_conditions" is array_result))
