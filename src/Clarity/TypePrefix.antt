-- ===== src/Clarity/TypePrefix.antt =====
-- The enum `TypePrefix` of clarity_value/deserialize.rs, which `define_u8_enum!` generates.
use stacks_encoding_native_j.Prelude.{
  ℕ, ◌≡◌, refl, arith, Option, none, some, ◌==◌, if◌then◌else◌, true, false,
}
use stacks_encoding_native_j.Prelude.{◌≤◌}
use stacks_encoding_native_j.Clarity.Types.{Value}

pub data TypePrefix : Type 0 where
  int : TypePrefix
  uint : TypePrefix
  buffer : TypePrefix
  bool_true : TypePrefix
  bool_false : TypePrefix
  principal_standard : TypePrefix
  principal_contract : TypePrefix
  response_ok : TypePrefix
  response_err : TypePrefix
  optional_none : TypePrefix
  optional_some : TypePrefix
  list : TypePrefix
  tuple : TypePrefix
  string_ascii : TypePrefix
  string_utf8 : TypePrefix

unfoldable pub to_u8 : TypePrefix → ℕ
to_u8 TypePrefix.int = 0
to_u8 TypePrefix.uint = 1
to_u8 TypePrefix.buffer = 2
to_u8 TypePrefix.bool_true = 3
to_u8 TypePrefix.bool_false = 4
to_u8 TypePrefix.principal_standard = 5
to_u8 TypePrefix.principal_contract = 6
to_u8 TypePrefix.response_ok = 7
to_u8 TypePrefix.response_err = 8
to_u8 TypePrefix.optional_none = 9
to_u8 TypePrefix.optional_some = 10
to_u8 TypePrefix.list = 11
to_u8 TypePrefix.tuple = 12
to_u8 TypePrefix.string_ascii = 13
to_u8 TypePrefix.string_utf8 = 14

unfoldable pub from_u8 : ℕ → Option TypePrefix
from_u8 v =
    if v == 0
    then some TypePrefix.int
    else if v == 1
    then some TypePrefix.uint
    else if v == 2
    then some TypePrefix.buffer
    else if v == 3
    then some TypePrefix.bool_true
    else if v == 4
    then some TypePrefix.bool_false
    else if v == 5
    then some TypePrefix.principal_standard
    else if v == 6
    then some TypePrefix.principal_contract
    else if v == 7
    then some TypePrefix.response_ok
    else if v == 8
    then some TypePrefix.response_err
    else if v == 9
    then some TypePrefix.optional_none
    else if v == 10
    then some TypePrefix.optional_some
    else if v == 11
    then some TypePrefix.list
    else if v == 12
    then some TypePrefix.tuple
    else if v == 13
    then some TypePrefix.string_ascii
    else if v == 14
    then some TypePrefix.string_utf8
    else none

-- `Value::type_prefix`
unfoldable pub type_prefix : Value → TypePrefix
type_prefix (Value.int z) = TypePrefix.int
type_prefix (Value.uint n) = TypePrefix.uint
type_prefix (Value.bool true) = TypePrefix.bool_true
type_prefix (Value.bool false) = TypePrefix.bool_false
type_prefix (Value.principal_standard p) = TypePrefix.principal_standard
type_prefix (Value.principal_contract p) = TypePrefix.principal_contract
type_prefix (Value.response_ok v) = TypePrefix.response_ok
type_prefix (Value.response_err v) = TypePrefix.response_err
type_prefix (Value.optional_some v) = TypePrefix.optional_some
type_prefix Value.optional_none = TypePrefix.optional_none
type_prefix (Value.tuple fs) = TypePrefix.tuple
type_prefix (Value.buffer bs) = TypePrefix.buffer
type_prefix (Value.list xs) = TypePrefix.list
type_prefix (Value.string_ascii bs) = TypePrefix.string_ascii
type_prefix (Value.string_utf8 cs) = TypePrefix.string_utf8

pub from_u8-to_u8 : (p : TypePrefix) → from_u8 (to_u8 p) ≡ some p
unfolding from_u8 to_u8
from_u8-to_u8 TypePrefix.int = refl
from_u8-to_u8 _ = refl

-- A byte is a prefix exactly if it is below 15.
pub from_u8-none : (v : ℕ) → 15 ≤ v → from_u8 v ≡ none
unfolding from_u8
from_u8-none v h = ground arith
