-- ===== src/Clarity/Encoder.antt =====
-- `decode_clarity_val` of src/clarity_value/neon_encoder.rs.
use stacks_encoding_native_j.Prelude.{
  ℕ, Bool, true, false, List, Option, Outcome, ok, ◌>>=◌, or_panic, flatten, ◌%◌, ◌^◌,
}
use stacks_encoding_native_j.Text.Decimal.{decimal}
use stacks_encoding_native_j.Text.Lossy.{lossy_chars}
use stacks_encoding_native_j.Js.{
  JsObject, JsItems, JsProperty, Encoded, string, number, boolean, null, object, array,
  empty_object, property, ◌&◌, ◌is◌,
}
use stacks_encoding_native_j.Js
use stacks_encoding_native_j.Address.Crockford.Defs.{C32Error}
use stacks_encoding_native_j.Address.Crockford.Check.{c32_address}
use stacks_encoding_native_j.Clarity.Types.{
  Value, ClarityValue, Items, Fields, StandardPrincipalData, clarity_value,
}
use stacks_encoding_native_j.Clarity.TypePrefix.{type_prefix, to_u8}
use stacks_encoding_native_j.Clarity.Serialize.{count_items}
use stacks_encoding_native_j.Clarity.Repr.{repr_string, show_int, encode_hex}

unfoldable pub serialized_bytes : ClarityValue → Option (List ℕ)
serialized_bytes (clarity_value bytes v) = bytes

-- `String::from_utf8_lossy`
unfoldable pub from_utf8_lossy : List ℕ → List ℕ
from_utf8_lossy bytes = flatten (lossy_chars bytes)

module _ (sha256 : List ℕ → List ℕ) (hex_encode : List ℕ → List ℕ) where
  abbrev hex_string : List ℕ → Js.JsValue
  hex_string bytes = string (encode_hex sha256 hex_encode bytes)

  unfoldable pub encode_principal : StandardPrincipalData → JsObject → Encoded
  encode_principal p obj = do
    let versioned = obj & "address_version" is number p.version
    let hashed = versioned & "address_hash_bytes" is hex_string p.hash_bytes
    address ← c32_address sha256 p.version p.hash_bytes
    ok (hashed & "address" is string address)

  -- The properties that every value has.
  unfoldable pub encode_head : Value → List ℕ → JsObject → Encoded
  encode_head v bytes obj = do
    repr ← repr_string sha256 hex_encode v
    ok (
        obj
        & "repr" is string repr
        & "hex" is hex_string bytes
        & "type_id" is number (to_u8 (type_prefix v)))

  -- The branch of `decode_clarity_val` for `deep`, with its loops over lists and tuples.
  unfoldable mutual
    pub encode_deep : Value → JsObject → Encoded
    encode_deep (Value.int z) obj = ok (obj & "value" is string (show_int z))
    encode_deep (Value.uint n) obj = ok (obj & "value" is string (decimal n))
    encode_deep (Value.bool b) obj = ok (obj & "value" is boolean b)
    encode_deep (Value.buffer bytes) obj = ok (obj & "buffer" is hex_string bytes)
    encode_deep (Value.list xs) obj = do
      items ← encode_items xs
      ok (obj & "list" is array (count_items xs % 2 ^ 32) items)
    encode_deep (Value.string_ascii text) obj = ok (obj & "data" is string (from_utf8_lossy text))
    encode_deep (Value.string_utf8 chars) obj =
        ok (obj & "data" is string (from_utf8_lossy (flatten chars)))
    encode_deep (Value.principal_standard p) obj = encode_principal p obj
    encode_deep (Value.principal_contract p) obj = do
      addressed ← encode_principal p.issuer obj
      ok (addressed & "contract_name" is string p.name)
    encode_deep (Value.tuple fs) obj = do
      entries ← encode_fields fs empty_object
      ok (obj & "data" is object entries)
    encode_deep (Value.optional_some v) obj = do
      option_obj ← encode_inner v
      ok (obj & "value" is object option_obj)
    encode_deep Value.optional_none obj = ok (obj & "value" is null)
    encode_deep (Value.response_ok v) obj = do
      response_obj ← encode_inner v
      ok (obj & "value" is object response_obj)
    encode_deep (Value.response_err v) obj = do
      response_obj ← encode_inner v
      ok (obj & "value" is object response_obj)

    -- The call of `decode_clarity_val` on a value inside another, with the bytes that it keeps.
    pub encode_inner : ClarityValue → Encoded
    encode_inner (clarity_value serialized_bytes v) = do
      bytes ← or_panic serialized_bytes
      headed ← encode_head v bytes empty_object
      encode_deep v headed

    pub encode_items : Items → Outcome C32Error JsItems
    encode_items Items.no_items = ok Js.no_items
    encode_items (Items.item v xs) = do
      item_obj ← encode_inner v
      items ← encode_items xs
      ok (Js.item (object item_obj) items)

    pub encode_fields : Fields → JsObject → Encoded
    encode_fields Fields.no_fields obj = ok obj
    encode_fields (Fields.field key v fs) obj = do
      val_obj ← encode_inner v
      encode_fields fs (obj & property key (object val_obj))

  unfoldable pub decode_clarity_val : ClarityValue → Bool → List ℕ → JsObject → Encoded
  decode_clarity_val (clarity_value kept v) deep bytes obj = do
    headed ← encode_head v bytes obj
    elim deep [ true ↦ encode_deep v headed | false ↦ ok headed ]
