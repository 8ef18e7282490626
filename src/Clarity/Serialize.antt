-- ===== src/Clarity/Serialize.antt =====
-- The wire format of Clarity values, as the inverse of clarity_value/deserialize.rs: which values
-- have an encoding, and what it is.
use stacks_encoding_native_j.Prelude.{ℕ, suc, ◌-◌, ◌^◌, ◌≤◌, ◌<◌, ◌≡◌, ℤ, pos, negsuc}
use stacks_encoding_native_j.Prelude.{
  List, [], ◌∷◌, ◌++◌, length, flatten, All, Bool, true, false, Option, some, none,
}
use stacks_encoding_native_j.Text.Utf8.{is_utf8}
use stacks_encoding_native_j.Text.Chars.{IsChar}
use stacks_encoding_native_j.Wire.Laws.{to_be}
use stacks_encoding_native_j.Clarity.Types.{
  Value, ClarityValue, Items, Fields, ClarityName, StandardPrincipalData, clarity_value,
  max_value_size, max_string_len, KeyOrder, compare_keys,
}

-- The two's complement of 128 bits.
abbrev pub from_i128 : ℤ → ℕ
from_i128 (pos n) = n
from_i128 (negsuc n) = 2 ^ 128 - 1 - n

abbrev pub IsI128 : ℤ → Type 0
IsI128 (pos n) = n < 2 ^ 127
IsI128 (negsuc n) = n < 2 ^ 127

abbrev pub serialize_name : ClarityName → List ℕ
serialize_name name = to_be 1 (length name) ++ name

abbrev pub serialize_principal : StandardPrincipalData → List ℕ
serialize_principal p = to_be 1 p.version ++ p.hash_bytes

-- Four bytes of length, and the bytes.
abbrev pub serialize_bytes : List ℕ → List ℕ
serialize_bytes bytes = to_be 4 (length bytes) ++ bytes

abbrev pub count_items : Items → ℕ
count_items Items.no_items = 0
count_items (Items.item v xs) = suc (count_items xs)

abbrev pub count_fields : Fields → ℕ
count_fields Fields.no_fields = 0
count_fields (Fields.field k v fs) = suc (count_fields fs)

unfoldable mutual
  pub serialize_value : Value → List ℕ
  serialize_value (Value.int z) = 0 ∷ to_be 16 (from_i128 z)
  serialize_value (Value.uint n) = 1 ∷ to_be 16 n
  serialize_value (Value.buffer bytes) = 2 ∷ serialize_bytes bytes
  serialize_value (Value.bool true) = 3 ∷ []
  serialize_value (Value.bool false) = 4 ∷ []
  serialize_value (Value.principal_standard p) = 5 ∷ serialize_principal p
  serialize_value (Value.principal_contract p) =
      6 ∷ (serialize_principal p.issuer ++ serialize_name p.name)
  serialize_value (Value.response_ok v) = 7 ∷ serialize v
  serialize_value (Value.response_err v) = 8 ∷ serialize v
  serialize_value Value.optional_none = 9 ∷ []
  serialize_value (Value.optional_some v) = 10 ∷ serialize v
  serialize_value (Value.list xs) = 11 ∷ (to_be 4 (count_items xs) ++ serialize_items xs)
  serialize_value (Value.tuple fs) = 12 ∷ (to_be 4 (count_fields fs) ++ serialize_fields fs)
  serialize_value (Value.string_ascii bytes) = 13 ∷ serialize_bytes bytes
  serialize_value (Value.string_utf8 chars) = 14 ∷ serialize_bytes (flatten chars)

  pub serialize : ClarityValue → List ℕ
  serialize (clarity_value bytes v) = serialize_value v

  pub serialize_items : Items → List ℕ
  serialize_items Items.no_items = []
  serialize_items (Items.item v xs) = serialize v ++ serialize_items xs

  pub serialize_fields : Fields → List ℕ
  serialize_fields Fields.no_fields = []
  serialize_fields (Fields.field k v fs) = serialize_name k ++ (serialize v ++ serialize_fields fs)

-- A name of at most 128 bytes of UTF-8.
pub record IsName (name : ClarityName) : Type 0 where
  pub name_length : length name ≤ max_string_len
  pub name_utf8 : is_utf8 name ≡ true

pub record IsPrincipal (p : StandardPrincipalData) : Type 0 where
  pub version_u8 : p.version < 256
  pub hash_length : length p.hash_bytes ≡ 20

-- `key` comes before all keys of a map.
abbrev pub AllAfter : ClarityName → Fields → Type 0
AllAfter key Fields.no_fields = Unit {0}
AllAfter key (Fields.field k v fs) = (compare_keys k key ≡ KeyOrder.after) × AllAfter key fs

-- The bytes that a value is kept with, if they are asked for.
abbrev pub kept_bytes : Bool → Value → Option (List ℕ)
kept_bytes true v = some (serialize_value v)
kept_bytes false v = none

-- The values that have an encoding, nested at most `k` deep, with their kept bytes.
mutual
  pub data IsWireBody (w : Bool) : ℕ → Value → Type 0 where
    int : {k : ℕ} (z : ℤ) → IsI128 z → IsWireBody w k (Value.int z)
    uint : {k : ℕ} (n : ℕ) → n < 2 ^ 128 → IsWireBody w k (Value.uint n)
    buffer :
        {k : ℕ} (bytes : List ℕ)
        → length bytes ≤ max_value_size
        → IsWireBody w k (Value.buffer bytes)
    bool : {k : ℕ} (b : Bool) → IsWireBody w k (Value.bool b)
    principal_standard :
        {k : ℕ} (p : StandardPrincipalData)
        → IsPrincipal p
        → IsWireBody w k (Value.principal_standard p)
    principal_contract :
        {k : ℕ} (issuer : StandardPrincipalData) (name : ClarityName)
        → IsPrincipal issuer
        → IsName name
        → IsWireBody w k (Value.principal_contract (record { issuer = issuer; name = name }))
    response_ok : {k : ℕ} {v : ClarityValue} → IsWire w k v → IsWireBody w k (Value.response_ok v)
    response_err : {k : ℕ} {v : ClarityValue} → IsWire w k v → IsWireBody w k (Value.response_err v)
    optional_none : {k : ℕ} → IsWireBody w k Value.optional_none
    optional_some :
        {k : ℕ} {v : ClarityValue} → IsWire w k v → IsWireBody w k (Value.optional_some v)
    list :
        {k : ℕ} {xs : Items}
        → count_items xs ≤ max_value_size
        → AllWire w k xs
        → IsWireBody w k (Value.list xs)
    tuple :
        {k : ℕ} {fs : Fields}
        → count_fields fs ≤ max_value_size
        → AllWireFields w k fs
        → IsWireBody w k (Value.tuple fs)
    string_ascii :
        {k : ℕ} (bytes : List ℕ)
        → length bytes ≤ max_value_size
        → IsWireBody w k (Value.string_ascii bytes)
    string_utf8 :
        {k : ℕ} (chars : List (List ℕ))
        → All IsChar chars
        → length (flatten chars) ≤ max_value_size
        → IsWireBody w k (Value.string_utf8 chars)

  pub data IsWire (w : Bool) : ℕ → ClarityValue → Type 0 where
    wire :
        {k : ℕ} {v : Value} → IsWireBody w k v → IsWire w (suc k) (clarity_value (kept_bytes w v) v)

  pub data AllWire (w : Bool) : ℕ → Items → Type 0 where
    no_items : {k : ℕ} → AllWire w k Items.no_items
    item :
        {k : ℕ} {v : ClarityValue} {xs : Items}
        → IsWire w k v
        → AllWire w k xs
        → AllWire w k (Items.item v xs)

  pub data AllWireFields (w : Bool) : ℕ → Fields → Type 0 where
    no_fields : {k : ℕ} → AllWireFields w k Fields.no_fields
    field :
        {k : ℕ} {v : ClarityValue} {fs : Fields} (key : ClarityName)
        → IsName key
        → IsWire w k v
        → AllAfter key fs
        → AllWireFields w k fs
        → AllWireFields w k (Fields.field key v fs)
