-- ===== src/Clarity/Names.antt =====
-- The names and principals of clarity_value/deserialize.rs. stacks_tx/deserialize.rs has a
-- `StandardPrincipalData` of its own with the same reads, in two calls.
use stacks_encoding_native_j.Prelude.{ℕ, List, ltb, not, ◌||◌}
use stacks_encoding_native_j.Text.Utf8.{from_utf8}
use stacks_encoding_native_j.Wire.Error.{
  clarity_name_too_long, clarity_name_not_utf8, contract_name_length, contract_name_not_utf8,
}
use stacks_encoding_native_j.Wire.Reader.{Reader, pure, ◌>>=◌, ◌>>◌, ensure, ok_or, read_exact}
use stacks_encoding_native_j.Wire.ByteOrder.{ByteOrder}
use stacks_encoding_native_j.Clarity.Types.{
  ClarityName, StandardPrincipalData, max_string_len, contract_min_name_length,
  contract_max_name_length,
}

module _ (b : ByteOrder) where
  -- `ContractName::deserialize`
  unfoldable pub read_contract_name : Reader (List ℕ)
  read_contract_name = do
    len_byte ← b.read_u8
    ensure (not (ltb len_byte contract_min_name_length || ltb contract_max_name_length len_byte))
        (contract_name_length len_byte)
    bytes ← read_exact len_byte
    ok_or (from_utf8 bytes) contract_name_not_utf8

  -- `ClarityName::deserialize`
  unfoldable pub read_clarity_name : Reader ClarityName
  read_clarity_name = do
    len_byte ← b.read_u8
    ensure (not (ltb max_string_len len_byte)) (clarity_name_too_long len_byte)
    bytes ← read_exact len_byte
    ok_or (from_utf8 bytes) clarity_name_not_utf8

  -- `StandardPrincipalData::deserialize`
  unfoldable pub read_standard_principal : Reader StandardPrincipalData
  read_standard_principal = do
    version ← b.read_u8
    bytes ← read_exact 20
    pure (record { version = version; hash_bytes = bytes })
