-- ===== src/Tests/Values.antt =====
-- Runs of the entry points of src/clarity_value/mod.rs, and instances of their theorems.
use stacks_encoding_native_j.Wire.ByteOrder.{big_endian-IsByteOrder}
use stacks_encoding_native_j.Prelude.{
  ℕ, ◌≡◌, refl, arith, List, [], ◌∷◌, Option, none, some, codes, true, ok, drop,
}
use stacks_encoding_native_j.Wire.Reader.{
  read_exact, slice_from, from_be_bytes, from_be_bytes_acc, ◌>>=◌, ◌>>◌,
}
use stacks_encoding_native_j.Wire.Cursor.{position}
use stacks_encoding_native_j.Wire.ByteOrder.{big_endian}
use stacks_encoding_native_j.Wire.Laws.{at}
use stacks_encoding_native_j.Js.{
  JsObject, JsItems, JsValue, object, string, number, empty_object, ◌&◌, ◌is◌, property, array,
}
use stacks_encoding_native_j.Js
use Prim.Native.String.{String}
use stacks_encoding_native_j.Clarity.Types.{Value, ClarityValue, clarity_value, new_with_bytes, new}
use stacks_encoding_native_j.Clarity.TypePrefix.{from_u8, to_u8, type_prefix}
use stacks_encoding_native_j.Clarity.Deserialize.{
  deserialize, inner_deserialize_read, read_body, finish,
}
use stacks_encoding_native_j.Clarity.Bounds.{IsBoundedOf}
use stacks_encoding_native_j.Clarity.Bounds.Read.{deserialize-IsBounded}
use stacks_encoding_native_j.Clarity.Repr.{repr_string, show_bool, encode_hex}
use stacks_encoding_native_j.Clarity.Encoder.{decode_clarity_val, encode_head}
use stacks_encoding_native_j.Entry.Arguments.{JsArgument, js_buffer, cursor_new, arg_bytes}
use stacks_encoding_native_j.Entry.Loop.{read_while}
use stacks_encoding_native_j.Entry.Loop.Ends.{Split}
use stacks_encoding_native_j.Entry.Values.{
  decode_clarity_value, decode_clarity_value_array, deep_flag, result_length, read_values,
  next_value,
}
use stacks_encoding_native_j.Entry.ValuesLoop.{IsHexOf, decode_clarity_value_array-Split}
use stacks_encoding_native_j.Entry.Total.{decode_clarity_value-ok}
use stacks_encoding_native_j.Tests.Address.{digest, digest-IsSha256}
use stacks_encoding_native_j.Tests.Hex.{to_hex, from_hex, nibble}
use stacks_encoding_native_j.Tests.Transaction.{}

-- `(some true)`
abbrev value_bytes : List ℕ
value_bytes = 10 ∷ 3 ∷ []

abbrev value : ClarityValue
value =
    clarity_value (some value_bytes)
      (Value.optional_some (clarity_value (some (3 ∷ [])) (Value.bool true)))

value_read : deserialize big_endian true (cursor_new value_bytes) ≡ ok (value, at value_bytes [])
unfolding deserialize inner_deserialize_read ◌>>◌ ◌>>=◌ read_exact from_u8 read_body finish
    slice_from position new_with_bytes
value_read = refl

deserialize-IsBounded_example : IsBoundedOf true 16 value
deserialize-IsBounded_example =
    deserialize-IsBounded big_endian true value (cursor_new value_bytes) (at value_bytes [])
      value_read

abbrev buffer : List ℕ → Option JsArgument
buffer bytes = some (js_buffer bytes)

buffer_bytes : (bytes : List ℕ) → arg_bytes from_hex (buffer bytes) ≡ ok bytes
unfolding arg_bytes
buffer_bytes bytes = refl

decode_clarity_value-ok_example :
    (result : JsValue) × (decode_clarity_value big_endian digest to_hex from_hex
        (buffer value_bytes)
      ≡ ok result)
decode_clarity_value-ok_example =
    decode_clarity_value-ok big_endian digest to_hex from_hex digest-IsSha256 (buffer value_bytes)
      value_bytes value (at value_bytes []) (buffer_bytes value_bytes) value_read tt

-- An array of `true` and `none`.
abbrev array_bytes : List ℕ
array_bytes = 0 ∷ 0 ∷ 0 ∷ 2 ∷ 3 ∷ 9 ∷ []

abbrev flat : String → String → ℕ → JsValue
flat repr hex type_id = object (
    empty_object
    & "repr" is string (codes repr)
    & "hex" is string (codes hex)
    & "type_id" is number type_id)

abbrev array_items : JsItems
array_items = Js.item (flat "true" "0x03" 3) (Js.item (flat "none" "0x09" 9) Js.no_items)

array_decoded :
    decode_clarity_value_array big_endian digest to_hex from_hex (buffer array_bytes) none
    ≡ ok (array 2 array_items)
unfolding decode_clarity_value_array arg_bytes deep_flag result_length read_values read_while
    position next_value deserialize inner_deserialize_read ◌>>◌ ◌>>=◌ read_exact from_u8 read_body
    finish slice_from decode_clarity_val new encode_head repr_string encode_hex show_bool to_u8
    type_prefix to_hex nibble from_be_bytes from_be_bytes_acc
array_decoded = refl

decode_clarity_value_array-Split_example :
    Split (IsHexOf digest to_hex from_hex) array_items (drop 4 array_bytes)
decode_clarity_value_array-Split_example =
    decode_clarity_value_array-Split digest to_hex from_hex big_endian big_endian-IsByteOrder
      (buffer array_bytes) none array_bytes 2 array_items (buffer_bytes array_bytes) (omega arith)
      array_decoded
