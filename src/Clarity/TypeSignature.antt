-- ===== src/Clarity/TypeSignature.antt =====
-- `Value::type_signature` of src/clarity_value/types.rs. Writing to a vector does not fail.
use stacks_encoding_native_j.Prelude.{ℕ, ◌*◌, List, [], ◌++◌, codes, length}
use stacks_encoding_native_j.Text.Decimal.{decimal}
use stacks_encoding_native_j.Clarity.Types.{Value, ClarityValue, Items, Fields, clarity_value}
use stacks_encoding_native_j.Clarity.Serialize.{count_items}

-- `type_signature_to_buffer`, and its loop over the entries of a tuple. Of a list, only the first
-- value is looked at.
unfoldable mutual
  pub type_signature : Value → List ℕ
  type_signature (Value.int z) = codes "int"
  type_signature (Value.uint n) = codes "uint"
  type_signature (Value.bool b) = codes "bool"
  type_signature (Value.optional_some v) = codes "(optional " ++ type_signature_of v ++ codes ")"
  type_signature Value.optional_none = codes "(optional UnknownType)"
  type_signature (Value.response_ok v) =
      codes "(response " ++ type_signature_of v ++ codes " UnknownType)"
  type_signature (Value.response_err v) =
      codes "(response UnknownType " ++ type_signature_of v ++ codes ")"
  type_signature (Value.tuple fs) = codes "(tuple" ++ type_signature_fields fs ++ codes ")"
  type_signature (Value.principal_standard p) = codes "principal"
  type_signature (Value.principal_contract p) = codes "principal"
  type_signature (Value.buffer bytes) = codes "(buff " ++ decimal (length bytes) ++ codes ")"
  type_signature (Value.list xs) =
      codes "(list "
      ++ decimal (count_items xs)
      ++ codes " "
      ++ type_signature_first xs
      ++ codes ")"
  type_signature (Value.string_ascii bytes) =
      codes "(string-ascii " ++ decimal (length bytes) ++ codes ")"
  type_signature (Value.string_utf8 chars) =
      codes "(string-utf8 " ++ decimal (length chars * 4) ++ codes ")"

  pub type_signature_of : ClarityValue → List ℕ
  type_signature_of (clarity_value bytes v) = type_signature v

  pub type_signature_first : Items → List ℕ
  type_signature_first Items.no_items = codes "UnknownType"
  type_signature_first (Items.item v xs) = type_signature_of v

  pub type_signature_fields : Fields → List ℕ
  type_signature_fields Fields.no_fields = []
  type_signature_fields (Fields.field key v fs) =
      codes " (" ++ key ++ codes " " ++ type_signature_of v ++ codes ")" ++ type_signature_fields fs
