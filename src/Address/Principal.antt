-- ===== src/Address/Principal.antt =====
-- `decode_clarity_value_to_principal_inner` of address/mod.rs.
pub mod Encoded
use stacks_encoding_native_j.Prelude.{
  ℕ, List, [], ◌++◌, codes, Outcome, ok, err, ◌>>=◌, ok_or, map_err,
}
use stacks_encoding_native_j.Address.Crockford.Defs.{C32Error}
use stacks_encoding_native_j.Address.Crockford.Check.{c32_address}
use stacks_encoding_native_j.Wire.Cursor.{Cursor}
use stacks_encoding_native_j.Wire.Error.{DeserializeError}
use stacks_encoding_native_j.Wire.Reader.{read_exact}
use stacks_encoding_native_j.Wire.ByteOrder.{ByteOrder}
use stacks_encoding_native_j.Clarity.Names.{read_standard_principal, read_clarity_name}
use stacks_encoding_native_j.Clarity.TypePrefix.{TypePrefix, from_u8}

-- One constructor for each message.
pub data PrincipalError : Type 0 where
  no_prefix : DeserializeError → PrincipalError
  bad_prefix : PrincipalError
  no_version : DeserializeError → PrincipalError
  no_hash : DeserializeError → PrincipalError
  no_principal : DeserializeError → PrincipalError
  no_contract_name : DeserializeError → PrincipalError
  c32_failure : C32Error → PrincipalError
  not_a_principal : ℕ → PrincipalError

module _ (b : ByteOrder) (sha256 : List ℕ → List ℕ) where
  unfoldable pub principal_of_buffer : Cursor → Outcome PrincipalError (List ℕ)
  principal_of_buffer cursor = do
    (version, cursor) ← map_err no_version (b.read_u8 cursor)
    (hash160, cursor) ← map_err no_hash (read_exact 20 cursor)
    map_err c32_failure (c32_address sha256 version hash160)

  unfoldable pub principal_of_standard : Cursor → Outcome PrincipalError (List ℕ)
  principal_of_standard cursor = do
    (principal, cursor) ← map_err no_principal (read_standard_principal b cursor)
    map_err c32_failure (c32_address sha256 principal.version principal.hash_bytes)

  unfoldable pub principal_of_contract : Cursor → Outcome PrincipalError (List ℕ)
  principal_of_contract cursor = do
    (issuer, cursor) ← map_err no_principal (read_standard_principal b cursor)
    (name, cursor) ← map_err no_contract_name (read_clarity_name b cursor)
    c32_addr ← map_err c32_failure (c32_address sha256 issuer.version issuer.hash_bytes)
    ok (name ++ codes "." ++ c32_addr)

  -- The match on the prefix.
  unfoldable pub principal_of : TypePrefix → ℕ → Cursor → Outcome PrincipalError (List ℕ)
  principal_of TypePrefix.buffer prefix_byte cursor = principal_of_buffer cursor
  principal_of TypePrefix.principal_standard prefix_byte cursor = principal_of_standard cursor
  principal_of TypePrefix.principal_contract prefix_byte cursor = principal_of_contract cursor
  principal_of _ prefix_byte cursor = err (not_a_principal prefix_byte)

  unfoldable pub clarity_value_to_principal : List ℕ → Outcome PrincipalError (List ℕ)
  clarity_value_to_principal arg_bytes = do
    let start : Cursor = record { consumed = []; rest = arg_bytes }
    (prefix_byte, cursor) ← map_err no_prefix (b.read_u8 start)
    prefix ← ok_or (from_u8 prefix_byte) bad_prefix
    principal_of prefix prefix_byte cursor
