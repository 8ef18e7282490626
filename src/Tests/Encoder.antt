-- ===== src/Tests/Encoder.antt =====
-- Runs of the encoders of stacks_tx/neon_encoder.rs, and instances of their theorems.
use stacks_encoding_native_j.Wire.ByteOrder.{big_endian-IsByteOrder}
use stacks_encoding_native_j.Prelude.{
  ℕ, ◌<◌, ◌≡◌, refl, arith, List, [], ◌∷◌, ◌++◌, All, All-replicate, some, codes, true, ok,
}
use stacks_encoding_native_j.Wire.Reader.{
  read_exact, read_be, read_vec, slice_from, from_be_bytes, from_be_bytes_acc, ◌>>=◌, ◌>>◌,
}
use stacks_encoding_native_j.Wire.Cursor.{Cursor, position}
use stacks_encoding_native_j.Wire.ByteOrder.{big_endian}
use stacks_encoding_native_j.Wire.Laws.{at, to_be}
use stacks_encoding_native_j.Text.Utf8.{from_utf8, is_utf8, is_utf8_from, utf8_lead, utf8_next}
use stacks_encoding_native_j.Js.{
  JsObject, JsItems, JsValue, object, string, number, empty_object, ◌&◌, ◌is◌, property, array,
}
use stacks_encoding_native_j.Js
use stacks_encoding_native_j.Clarity.Types.{Value, clarity_value, new_with_bytes}
use stacks_encoding_native_j.Clarity.TypePrefix.{from_u8, to_u8, type_prefix}
use stacks_encoding_native_j.Clarity.Names.{read_clarity_name}
use stacks_encoding_native_j.Clarity.Deserialize.{
  deserialize, inner_deserialize_read, read_body, finish,
}
use stacks_encoding_native_j.Clarity.Repr.{repr_string, show_bool, encode_hex}
use stacks_encoding_native_j.Clarity.Encoder.{decode_clarity_val, encode_head, serialized_bytes}
use stacks_encoding_native_j.PostCondition.Deserialize.{read_stacks_address}
use stacks_encoding_native_j.Transaction.Types.{TransactionContractCall}
use stacks_encoding_native_j.Transaction.Payload.{read_contract_call}
use stacks_encoding_native_j.Transaction.ConditionEncoder.{serialize_stacks_address}
use stacks_encoding_native_j.Transaction.PayloadEncoder.{serialize_args, serialize_contract_call}
use stacks_encoding_native_j.Transaction.ArgsBuffer.{
  IsBuffer, BehindNames, serialize_contract_call-IsBuffer,
}
use stacks_encoding_native_j.Transaction.EncoderTotal.{HasTransactionAddresses}
use stacks_encoding_native_j.Entry.Arguments.{js_buffer, arg_bytes}
use stacks_encoding_native_j.Entry.Transactions.{decode_transaction}
use stacks_encoding_native_j.Entry.Total.{decode_transaction-ok}
use stacks_encoding_native_j.Tests.Address.{digest, digest-IsSha256, hash_bytes}
use stacks_encoding_native_j.Tests.Conversions.{stacks_text, stacks_text_made}
use stacks_encoding_native_j.Tests.Hex.{to_hex, from_hex, nibble}
use stacks_encoding_native_j.Tests.Transaction.{input, transaction, transaction_read}

transaction-HasTransactionAddresses : HasTransactionAddresses transaction
transaction-HasTransactionAddresses = record {
  signers = (All-replicate (λ b. b < 256) 20 1 (omega arith), omega arith);
  conditions = tt;
  payload = tt;
}

input_bytes : arg_bytes from_hex (some (js_buffer input)) ≡ ok input
unfolding arg_bytes
input_bytes = refl

decode_transaction-ok_example :
    (result : JsValue) × (decode_transaction big_endian digest digest to_hex from_hex
        (some (js_buffer input))
      ≡ ok result)
decode_transaction-ok_example =
    decode_transaction-ok big_endian digest to_hex from_hex digest-IsSha256 digest
      (some (js_buffer input)) input transaction (at input []) input_bytes transaction_read
      transaction-HasTransactionAddresses

-- A call of `set` in a contract `pool` with `true`.
abbrev call : TransactionContractCall
call = record {
  address = record { version = 22; hash160_bytes = hash_bytes };
  contract_name = codes "pool";
  function_name = codes "set";
  function_args = clarity_value (some (3 ∷ [])) (Value.bool true) ∷ [];
}

abbrev call_bytes : List ℕ
call_bytes =
    22 ∷ (hash_bytes ++ (4 ∷ codes "pool") ++ (3 ∷ codes "set") ++ (0 ∷ 0 ∷ 0 ∷ 1 ∷ 3 ∷ []))

call_read : read_contract_call big_endian (at [] call_bytes) ≡ ok (call, at call_bytes [])
unfolding read_contract_call ◌>>=◌ ◌>>◌ read_be read_exact from_be_bytes from_be_bytes_acc
    read_stacks_address read_clarity_name from_utf8 is_utf8 is_utf8_from utf8_lead utf8_next
    read_vec deserialize inner_deserialize_read from_u8 read_body finish slice_from position
    new_with_bytes
call_read = refl

abbrev argument : JsObject
argument =
    empty_object
    & "repr" is string (codes "true")
    & "hex" is string (codes "0x03")
    & "type_id" is number 3

abbrev call_object : JsObject
call_object =
    empty_object
    & "address_version" is number 22
    & "address_hash_bytes" is string (encode_hex digest to_hex hash_bytes)
    & "address" is string stacks_text
    & "contract_name" is string (codes "pool")
    & "function_name" is string (codes "set")
    & "function_args" is array 1 (Js.item (object argument) Js.no_items)
    & "function_args_buffer" is string (codes "0x0000000103")

call_encoded : serialize_contract_call digest to_hex call empty_object ≡ ok call_object
unfolding serialize_contract_call serialize_stacks_address serialize_args serialized_bytes
    decode_clarity_val encode_head repr_string show_bool encode_hex to_hex nibble to_be to_u8
    type_prefix
call_encoded = rw stacks_text_made refl

call_bytes-small : All (λ x. x < 256) call_bytes
call_bytes-small = omega arith

serialize_contract_call-IsBuffer_example :
    (front : Cursor) × BehindNames big_endian call (at [] call_bytes) front
    × IsBuffer digest to_hex call_object front (at call_bytes [])
serialize_contract_call-IsBuffer_example =
    serialize_contract_call-IsBuffer digest to_hex big_endian big_endian-IsByteOrder call
      empty_object call_object (at [] call_bytes) (at call_bytes []) call_read call_bytes-small
      call_encoded
