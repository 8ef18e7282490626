-- ===== src/Clarity/Types.antt =====
-- clarity_value/types.rs: the data of Clarity values.
use stacks_encoding_native_j.Prelude.{ℕ, ℤ, Bool, List, [], ◌∷◌, Option, none, some}
use stacks_encoding_native_j.Prelude.{◌==◌, ltb, if◌then◌else◌}
use stacks_encoding_native_j.Text.Lossy.{lossy_chars}

abbrev pub max_string_len : ℕ
max_string_len = 128

-- 1024 * 1024
abbrev pub max_value_size : ℕ
max_value_size = 1048576

abbrev pub contract_min_name_length : ℕ
contract_min_name_length = 1

abbrev pub contract_max_name_length : ℕ
contract_max_name_length = 40

-- `ClarityName`: its bytes. The deserializers do not hold a name against the pattern of
-- `CLARITY_NAME_REGEX`.
abbrev pub ClarityName : Type 0
ClarityName = List ℕ

-- A version and the 20 bytes of a hash.
pub record StandardPrincipalData : Type 0 where
  pub version : ℕ
  pub hash_bytes : List ℕ

pub record QualifiedContractIdentifier : Type 0 where
  pub issuer : StandardPrincipalData
  pub name : ClarityName

-- A `Vec` of values is `Items`, and a `BTreeMap` of values `Fields`, in the order of its keys.
mutual
  pub data Value : Type 0 where
    int : ℤ → Value
    uint : ℕ → Value
    bool : Bool → Value
    buffer : List ℕ → Value
    list : Items → Value
    string_utf8 : List (List ℕ) → Value
    string_ascii : List ℕ → Value
    principal_standard : StandardPrincipalData → Value
    principal_contract : QualifiedContractIdentifier → Value
    tuple : Fields → Value
    optional_some : ClarityValue → Value
    optional_none : Value
    response_ok : ClarityValue → Value
    response_err : ClarityValue → Value

  -- `serialized_bytes` and `value`
  pub data ClarityValue : Type 0 where
    clarity_value : Option (List ℕ) → Value → ClarityValue

  pub data Items : Type 0 where
    no_items : Items
    item : ClarityValue → Items → Items

  pub data Fields : Type 0 where
    no_fields : Fields
    field : ClarityName → ClarityValue → Fields → Fields

unfoldable pub new_with_bytes : List ℕ → Value → ClarityValue
new_with_bytes serialized_bytes value = clarity_value (some serialized_bytes) value

unfoldable pub new : Value → ClarityValue
new value = clarity_value none value

-- `Value::string_utf8`: the characters of the lossy text, each encoded again.
unfoldable pub to_string_utf8 : List ℕ → Value
to_string_utf8 bytes = string_utf8 (lossy_chars bytes)

-- The order of `String`s, byte by byte.
pub data KeyOrder : Type 0 where
  before same after : KeyOrder

unfoldable pub compare_keys : ClarityName → ClarityName → KeyOrder
compare_keys [] [] = same
compare_keys [] (k ∷ ks) = before
compare_keys (j ∷ js) [] = after
compare_keys (j ∷ js) (k ∷ ks) =
    if ltb j k then before else if j == k then compare_keys js ks else after

-- `BTreeMap::insert`: a key that is there gets the new value.
unfoldable pub insert : ClarityName → ClarityValue → Fields → Fields
insert key value no_fields = field key value no_fields
insert key value (field k v fs) = elim (compare_keys key k) [
  | before ↦ field key value (field k v fs)
  | same ↦ field k value fs
  | after ↦ field k v (insert key value fs)
]
