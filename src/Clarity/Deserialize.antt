-- ===== src/Clarity/Deserialize.antt =====
-- `ClarityValue::deserialize` of clarity_value/deserialize.rs.
use stacks_encoding_native_j.Prelude.{
  ℕ, zero, suc, ◌+◌, ◌-◌, ◌%◌, ◌^◌, ℤ, pos, negsuc, get_or, ltb, leb,
}
use stacks_encoding_native_j.Prelude.{not, Bool, true, false, if◌then◌else◌}
use stacks_encoding_native_j.Prelude.{hangs}
use stacks_encoding_native_j.Wire.Error.{type_signature_too_deep}
use stacks_encoding_native_j.Wire.Reader.{
  Reader, pure, ◌>>=◌, ◌>>◌, ensure, ensure_str, ok_or_str, get_position, slice_from, read_exact,
  from_be_bytes,
}
use stacks_encoding_native_j.Wire.ByteOrder.{ByteOrder}
use stacks_encoding_native_j.Clarity.TypePrefix
use stacks_encoding_native_j.Clarity.TypePrefix.{TypePrefix}
use stacks_encoding_native_j.Clarity.Names.{read_clarity_name, read_standard_principal}
use stacks_encoding_native_j.Clarity.Types.{
  Value, ClarityValue, Items, Fields, no_items, item, no_fields, insert, max_value_size,
  to_string_utf8, new, new_with_bytes,
}

-- `i128::from_be_bytes`, given the bytes as an unsigned number.
unfoldable pub to_i128 : ℕ → ℤ
to_i128 u = if ltb u (2 ^ 127) then pos u else negsuc (2 ^ 128 - 1 - u)

-- A length of four bytes, `u32::from_be_bytes`, which must not pass `MAX_VALUE_SIZE`.
unfoldable pub read_size : Reader ℕ
read_size = do
  bytes ← read_exact 4
  let len = from_be_bytes bytes
  ensure_str (not (ltb max_value_size len))
  pure len

-- The loop that fills `items`.
unfoldable pub read_items : Reader ClarityValue → ℕ → Reader Items
read_items read_value zero = pure no_items
read_items read_value (suc n) = do
  value ← read_value
  items ← read_items read_value n
  pure (item value items)

module _ (b : ByteOrder) where
  -- The loop that fills the map `entries`.
  unfoldable pub read_fields : Reader ClarityValue → ℕ → Fields → Reader Fields
  read_fields read_value zero entries = pure entries
  read_fields read_value (suc n) entries = do
    key ← read_clarity_name b
    value ← read_value
    read_fields read_value n (insert key value entries)

  -- The `match` on the type prefix. `read_value` is the recursive call, one level deeper.
  unfoldable pub read_body : Reader ClarityValue → TypePrefix → Reader Value
  read_body read_value TypePrefix.int = do
    bytes ← read_exact 16
    pure (Value.int (to_i128 (from_be_bytes bytes)))
  read_body read_value TypePrefix.uint = do
    bytes ← read_exact 16
    pure (Value.uint (from_be_bytes bytes))
  read_body read_value TypePrefix.buffer = do
    len ← read_size
    bytes ← read_exact len
    pure (Value.buffer bytes)
  read_body read_value TypePrefix.bool_true = pure (Value.bool true)
  read_body read_value TypePrefix.bool_false = pure (Value.bool false)
  read_body read_value TypePrefix.principal_standard = do
    principal ← read_standard_principal b
    pure (Value.principal_standard principal)
  read_body read_value TypePrefix.principal_contract = do
    issuer ← read_standard_principal b
    name ← read_clarity_name b
    pure (Value.principal_contract (record { issuer = issuer; name = name }))
  read_body read_value TypePrefix.response_ok = do
    value ← read_value
    pure (Value.response_ok value)
  read_body read_value TypePrefix.response_err = do
    value ← read_value
    pure (Value.response_err value)
  read_body read_value TypePrefix.optional_none = pure Value.optional_none
  read_body read_value TypePrefix.optional_some = do
    value ← read_value
    pure (Value.optional_some value)
  read_body read_value TypePrefix.list = do
    len ← read_size
    items ← read_items read_value len
    pure (Value.list items)
  read_body read_value TypePrefix.tuple = do
    len ← read_size
    entries ← read_fields read_value len no_fields
    pure (Value.tuple entries)
  read_body read_value TypePrefix.string_ascii = do
    len ← read_size
    bytes ← read_exact len
    pure (Value.string_ascii bytes)
  read_body read_value TypePrefix.string_utf8 = do
    len ← read_size
    bytes ← read_exact len
    pure (to_string_utf8 bytes)

  -- The value with the bytes from `cursor_start` on, if they are asked for.
  unfoldable pub finish : Bool → ℕ → Value → Reader ClarityValue
  finish true cursor_start value = do
    bytes ← slice_from cursor_start
    pure (new_with_bytes bytes value)
  finish false cursor_start value = pure (new value)

  -- `inner_deserialize_read`, with fuel for the calls within calls; `depth` is a `u8`.
  unfoldable pub inner_deserialize_read : ℕ → ℕ → Bool → Reader ClarityValue
  inner_deserialize_read zero depth with_bytes = λ c. hangs
  inner_deserialize_read (suc fuel) depth with_bytes = do
    ensure (not (leb 16 depth)) (type_signature_too_deep depth)
    cursor_start ← get_position
    header ← read_exact 1
    prefix ← ok_or_str (TypePrefix.from_u8 (get_or 0 header 0))
    value ← read_body (inner_deserialize_read fuel ((depth + 1) % 256) with_bytes) prefix
    finish with_bytes cursor_start value

  -- 17 calls reach the depth of 16, at which the function refuses.
  unfoldable pub deserialize : Bool → Reader ClarityValue
  deserialize with_bytes = inner_deserialize_read 17 0 with_bytes
