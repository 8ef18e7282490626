-- ===== src/Entry/Addresses.antt =====
-- The entry points of src/address/mod.rs.
use stacks_encoding_native_j.Prelude.{
  ℕ, List, Option, none, some, Bool, true, false, ltb, if◌then◌else◌, Outcome, ok, err, panic,
  hangs, ◌>>=◌, map_err,
}
use stacks_encoding_native_j.Wire.ByteOrder.{ByteOrder}
use stacks_encoding_native_j.Js.{JsValue, string, number, array, no_items, item}
use stacks_encoding_native_j.Address.Crockford.Defs.{C32Error}
use stacks_encoding_native_j.Address.Crockford.Check.{c32_address, c32_address_decode}
use stacks_encoding_native_j.Address.Conversions.{stacks_to_bitcoin, bitcoin_to_stacks}
use stacks_encoding_native_j.Address.Principal.{clarity_value_to_principal}
use stacks_encoding_native_j.Clarity.Repr.{encode_hex}
use stacks_encoding_native_j.Entry.Arguments.{
  JsArgument, js_string, Thrown, missing_argument, not_a_string, no_address, bad_address,
  no_conversion, no_principal, arg_bytes, arg_as_bytes,
}

-- `cx.argument::<JsString>(0)`
unfoldable pub string_arg : Option JsArgument → Outcome Thrown (List ℕ)
string_arg none = err missing_argument
string_arg (some (js_string text)) = ok text
string_arg (some _) = err not_a_string

-- `as u8` of a number that is not negative.
unfoldable pub saturate_u8 : ℕ → ℕ
saturate_u8 n = if ltb n 256 then n else 255

-- Whether a result is `Ok`.
unfoldable pub is_ok : Outcome C32Error (ℕ × List ℕ) → Outcome Thrown Bool
is_ok (ok address) = ok true
is_ok (err e) = ok false
is_ok panic = panic
is_ok hangs = hangs

module _ (b : ByteOrder) (sha256 : List ℕ → List ℕ) (hex_encode : List ℕ → List ℕ)
    (hex_decode : List ℕ → Option (List ℕ)) (check_encode_slice : List ℕ → List ℕ)
    (from_check : List ℕ → Option (List ℕ)) where
  unfoldable pub is_valid_stacks_address : Option JsArgument → Outcome Thrown Bool
  is_valid_stacks_address arg = do
    address_string ← string_arg arg
    is_ok (c32_address_decode sha256 address_string)

  unfoldable pub decode_stacks_address : Option JsArgument → Outcome Thrown JsValue
  decode_stacks_address arg = do
    address_string ← string_arg arg
    (version, bytes) ← map_err bad_address (c32_address_decode sha256 address_string)
    let hash160 = string (encode_hex sha256 hex_encode bytes)
    ok (array 2 (item (number version) (item hash160 no_items)))

  unfoldable pub decode_clarity_value_to_principal : Option JsArgument → Outcome Thrown (List ℕ)
  decode_clarity_value_to_principal arg = do
    bytes ← arg_bytes hex_decode arg
    map_err no_principal (clarity_value_to_principal b sha256 bytes)

  unfoldable pub stacks_address_from_parts : ℕ → Option JsArgument → Outcome Thrown (List ℕ)
  stacks_address_from_parts version arg =
      arg_as_bytes hex_decode arg
        λ bytes. map_err no_address (c32_address sha256 (saturate_u8 version) bytes)

  unfoldable pub stacks_to_bitcoin_address : Option JsArgument → Outcome Thrown (List ℕ)
  stacks_to_bitcoin_address arg = do
    input ← string_arg arg
    map_err no_conversion (stacks_to_bitcoin sha256 check_encode_slice from_check input)

  unfoldable pub bitcoin_to_stacks_address : Option JsArgument → Outcome Thrown (List ℕ)
  bitcoin_to_stacks_address arg = do
    input ← string_arg arg
    map_err no_conversion (bitcoin_to_stacks sha256 check_encode_slice from_check input)
