-- ===== src/Tests/Conditions.antt =====
-- Runs of the entry point of src/post_condition/mod.rs, and instances of its theorems.
use stacks_encoding_native_j.Wire.Laws.{to_be}
use stacks_encoding_native_j.Entry.ConditionsWire.{
  all_bytes, encoded_nil, encoded_item, decode_tx_post_conditions-all_bytes,
}
use stacks_encoding_native_j.Wire.ByteOrder.{big_endian-IsByteOrder}
use stacks_encoding_native_j.Prelude.{
  ℕ, ◌≡◌, refl, arith, List, [], ◌∷◌, Option, some, codes, ok, replicate, ◌++◌, take, drop,
}
use stacks_encoding_native_j.Wire.Reader.{
  read_exact, read_be, from_be_bytes, from_be_bytes_acc, ◌>>=◌,
}
use stacks_encoding_native_j.Wire.Cursor.{position}
use stacks_encoding_native_j.Wire.ByteOrder.{big_endian}
use stacks_encoding_native_j.Js.{
  JsObject, JsItems, JsValue, object, string, number, empty_object, ◌&◌, ◌is◌, property, array,
}
use stacks_encoding_native_j.Js
use stacks_encoding_native_j.Text.Decimal.{decimal, decimal_from}
use stacks_encoding_native_j.PostCondition.Types.{
  TransactionPostCondition, PostConditionPrincipal, sent_ge, fungible_condition_code,
}
use stacks_encoding_native_j.PostCondition.Deserialize.{
  read_post_condition, read_stx, read_principal,
}
use stacks_encoding_native_j.PostCondition.Codes.{
  asset_info_id_u8, principal_id_u8, fungible_code_u8,
}
use stacks_encoding_native_j.PostCondition.Encoder.{
  encode_post_condition, encode_condition_principal, encode_fungible_code, fungible_name,
}
use stacks_encoding_native_j.Transaction.ConditionEncoder.{serialize_post_condition}
use stacks_encoding_native_j.Transaction.ConditionAgree.{
  serialize_post_condition-encode_post_condition,
}
use stacks_encoding_native_j.Entry.Arguments.{JsArgument, js_buffer, arg_bytes}
use stacks_encoding_native_j.Entry.Loop.{read_while}
use stacks_encoding_native_j.Entry.Loop.Ends.{Split}
use stacks_encoding_native_j.Entry.Conditions.{
  next_condition, read_conditions, post_conditions_array, decode_tx_post_conditions,
}
use stacks_encoding_native_j.Entry.ConditionsLoop.{IsConditionOf, post_conditions_array-Split}
use stacks_encoding_native_j.Tests.Address.{digest}
use stacks_encoding_native_j.Tests.Hex.{to_hex, from_hex}

-- The sender sends 300 or more.
abbrev condition : TransactionPostCondition
condition = TransactionPostCondition.stx PostConditionPrincipal.origin sent_ge 300

abbrev condition_bytes : List ℕ
condition_bytes = 0 ∷ 1 ∷ 3 ∷ 0 ∷ 0 ∷ 0 ∷ 0 ∷ 0 ∷ 0 ∷ 1 ∷ 44 ∷ []

abbrev condition_object : JsObject
condition_object =
    empty_object
    & "asset_info_id" is number 0
    & "principal" is object (empty_object & "type_id" is number 1)
    & "condition_code" is number 3
    & "condition_name" is string (codes "sent_greater_than_or_equal_to")
    & "amount" is string (codes "300")

abbrev input_bytes : List ℕ
input_bytes = 2 ∷ 0 ∷ 0 ∷ 0 ∷ 1 ∷ condition_bytes

conditions_read :
    post_conditions_array big_endian digest to_hex from_hex input_bytes
    ≡ ok (array 1 (Js.item (object condition_object) Js.no_items))
unfolding post_conditions_array read_conditions read_while position next_condition
    read_post_condition read_stx read_principal read_be read_exact ◌>>=◌ from_be_bytes
    from_be_bytes_acc fungible_condition_code encode_post_condition encode_condition_principal
    encode_fungible_code fungible_name asset_info_id_u8 principal_id_u8 fungible_code_u8 decimal
    decimal_from
conditions_read = refl

post_conditions_array-Split_example :
    (1 ≡ from_be_bytes (take 4 (drop 1 input_bytes)))
    × Split
        (IsConditionOf big_endian digest to_hex from_hex)
        (Js.item (object condition_object) Js.no_items)
        (drop 5 input_bytes)
post_conditions_array-Split_example =
    post_conditions_array-Split big_endian digest to_hex from_hex big_endian-IsByteOrder input_bytes
      1 (Js.item (object condition_object) Js.no_items) (omega arith) conditions_read

-- An asset whose value has a prefix that is not known.
abbrev stuck_bytes : List ℕ
stuck_bytes = condition_bytes ++ (2 ∷ 1 ∷ replicate 21 22 ++ (1 ∷ b'a' ∷ 1 ∷ b'b' ∷ 15 ∷ []))

condition_encoded : encode_post_condition digest to_hex condition empty_object ≡ ok condition_object
unfolding encode_post_condition encode_condition_principal encode_fungible_code fungible_name
    asset_info_id_u8 principal_id_u8 fungible_code_u8 decimal decimal_from
condition_encoded = refl

abbrev two_conditions : List TransactionPostCondition
two_conditions = condition ∷ condition ∷ []

abbrev two_items : JsItems
two_items = Js.item (object condition_object) (Js.item (object condition_object) Js.no_items)

abbrev buffer : List ℕ → Option JsArgument
buffer bytes = some (js_buffer bytes)

buffer_bytes : (bytes : List ℕ) → arg_bytes from_hex (buffer bytes) ≡ ok bytes
unfolding arg_bytes
buffer_bytes bytes = refl

decode_tx_post_conditions-all_bytes_example :
    decode_tx_post_conditions big_endian digest to_hex from_hex
      (buffer (2 ∷ (to_be 4 2 ++ all_bytes two_conditions)))
    ≡ ok (
        object (
          empty_object
          & "post_condition_mode" is number 2
          & "post_conditions" is array 2 two_items))
decode_tx_post_conditions-all_bytes_example =
    decode_tx_post_conditions-all_bytes big_endian digest to_hex from_hex big_endian-IsByteOrder
      (buffer (2 ∷ (to_be 4 2 ++ all_bytes two_conditions))) 2 two_conditions two_items
      (buffer_bytes (2 ∷ (to_be 4 2 ++ all_bytes two_conditions)))
      ((tt, omega arith), ((tt, omega arith), tt)) (omega arith)
      (encoded_item condition condition_object condition_encoded
        (encoded_item condition condition_object condition_encoded encoded_nil))

serialize_post_condition-encode_post_condition_example :
    serialize_post_condition digest to_hex condition empty_object
    ≡ encode_post_condition digest to_hex condition empty_object
serialize_post_condition-encode_post_condition_example =
    serialize_post_condition-encode_post_condition digest to_hex condition empty_object
