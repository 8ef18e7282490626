-- ===== src/Entry/Values.antt =====
-- The entry points of src/clarity_value/mod.rs.
use stacks_encoding_native_j.Prelude.{
  ℕ, suc, List, take, drop, length, Option, none, some, Bool, true, false, ltb, leb, if◌then◌else◌,
  Outcome, ok, err, ◌>>=◌, map_err,
}
use stacks_encoding_native_j.Wire.Cursor.{Cursor, position}
use stacks_encoding_native_j.Wire.Reader.{slice_from, from_be_bytes}
use stacks_encoding_native_j.Wire.ByteOrder.{ByteOrder}
use stacks_encoding_native_j.Js.{JsValue, JsItems, object, array, empty_object, no_items}
use stacks_encoding_native_j.Clarity.Deserialize.{deserialize}
use stacks_encoding_native_j.Clarity.Repr.{repr_string}
use stacks_encoding_native_j.Clarity.TypeSignature.{type_signature}
use stacks_encoding_native_j.Clarity.Encoder.{decode_clarity_val}
use stacks_encoding_native_j.PostCondition.Deserialize.{value_of}
use stacks_encoding_native_j.Entry.Loop.{read_while}
use stacks_encoding_native_j.Entry.Arguments.{
  JsArgument, js_boolean, Thrown, not_a_boolean, deserializing, no_address, cursor_new, arg_bytes,
  arg_as_bytes,
}

-- The argument `deep`, which may be left out.
unfoldable pub deep_flag : Option JsArgument → Outcome Thrown Bool
deep_flag none = ok false
deep_flag (some (js_boolean deep)) = ok deep
deep_flag (some _) = err not_a_boolean

-- The length that the first four bytes announce.
unfoldable pub result_length : List ℕ → ℕ
result_length input_bytes =
    if leb 4 (length input_bytes) then from_be_bytes (take 4 input_bytes) else 0

module _ (b : ByteOrder) (sha256 : List ℕ → List ℕ) (hex_encode : List ℕ → List ℕ)
    (hex_decode : List ℕ → Option (List ℕ)) where
  unfoldable pub decode_clarity_value : Option JsArgument → Outcome Thrown JsValue
  decode_clarity_value arg = do
    val_bytes ← arg_bytes hex_decode arg
    (value, cursor) ← map_err deserializing (deserialize b true (cursor_new val_bytes))
    root_obj ←
        map_err no_address (decode_clarity_val sha256 hex_encode value true val_bytes empty_object)
    ok (object root_obj)

  unfoldable pub decode_clarity_value_type_name : Option JsArgument → Outcome Thrown (List ℕ)
  decode_clarity_value_type_name arg = arg_as_bytes hex_decode arg λ val_bytes. do
    (val, cursor) ← map_err deserializing (deserialize b false (cursor_new val_bytes))
    ok (type_signature (value_of val))

  unfoldable pub decode_clarity_value_to_repr : Option JsArgument → Outcome Thrown (List ℕ)
  decode_clarity_value_to_repr arg = arg_as_bytes hex_decode arg λ val_bytes. do
    (val, cursor) ← map_err deserializing (deserialize b false (cursor_new val_bytes))
    map_err no_address (repr_string sha256 hex_encode (value_of val))

  -- One pass of the loop: the object of the next value, and the cursor behind it.
  unfoldable pub next_value : Bool → Cursor → Outcome Thrown (JsValue × Cursor)
  next_value deep byte_cursor = do
    let cursor_pos = position byte_cursor
    (value, behind) ← map_err deserializing (deserialize b deep byte_cursor)
    (decoded_bytes, behind) ← map_err deserializing (slice_from cursor_pos behind)
    value_obj ←
        map_err no_address
          (decode_clarity_val sha256 hex_encode value deep decoded_bytes empty_object)
    ok (object value_obj, behind)

  -- The loop, with more passes than there are bytes.
  unfoldable pub read_values : Bool → List ℕ → Outcome Thrown JsItems
  read_values deep val_slice =
      read_while (next_value deep) (suc (length val_slice)) (length val_slice)
        (cursor_new val_slice)

  unfoldable pub decode_clarity_value_array :
      Option JsArgument → Option JsArgument → Outcome Thrown JsValue
  decode_clarity_value_array arg deep_arg = do
    input_bytes ← arg_bytes hex_decode arg
    deep ← deep_flag deep_arg
    let val_slice = drop 4 input_bytes
    items ← if ltb 4 (length input_bytes) then read_values deep val_slice else ok no_items
    ok (array (result_length input_bytes) items)
