-- ===== src/Clarity/Bounds.antt =====
-- What clarity_value/deserialize.rs guarantees of a value: sizes, nesting, kept bytes.
pub mod Read
use stacks_encoding_native_j.Prelude.{
  ℕ, zero, suc, ◌+◌, ◌-◌, ◌%◌, ◌≤◌, ◌<◌, ◌≡◌, refl, arith, Bool, true, false, not, List, [], ◌∷◌,
  length, All, Option, none, some, ltb, leb, ok, err, take, length-take, leb→le, subst, sym,
  Bool-cases, inl, inr,
}
use stacks_encoding_native_j.Text.Lossy.{lossy_chars}
use stacks_encoding_native_j.Wire.Cursor.{Cursor}
use stacks_encoding_native_j.Wire.Reader.{
  Reader, pure, ◌>>=◌, ◌>>◌, fail_str, ensure_str, ok_or_str, read_exact,
}
use stacks_encoding_native_j.Wire.Ensures.{
  Ensures, Ensures-read, Ensures-bind, Ensures-pure, Ensures-then, Ensures-eq, Ensures-ensure,
}
use stacks_encoding_native_j.Wire.ByteOrder.{ByteOrder}
use stacks_encoding_native_j.Clarity.Types.{
  StandardPrincipalData, Value, ClarityValue, Items, Fields, ClarityName, clarity_value,
  max_value_size, insert, compare_keys, KeyOrder, new, new_with_bytes, to_string_utf8,
}
use stacks_encoding_native_j.Text.NonEmpty.{lossy_chars-IsNonEmpty}
use stacks_encoding_native_j.Clarity.Names.{read_standard_principal}
use stacks_encoding_native_j.Clarity.TypePrefix.{TypePrefix}
use stacks_encoding_native_j.Clarity.Serialize.{count_items, count_fields}
use stacks_encoding_native_j.Clarity.Deserialize.{
  read_size, read_items, read_fields, read_body, finish, inner_deserialize_read, deserialize,
}

-- Bytes are kept exactly if they were asked for.
abbrev pub KeepsBytes : Bool → Option (List ℕ) → Type 0
KeepsBytes true (some bytes) = Unit
KeepsBytes true none = ⊥
KeepsBytes false (some bytes) = ⊥
KeepsBytes false none = Unit

-- A value in which at most `k` values are nested, with bounded sizes at every depth.
abbrev mutual
  pub IsBounded : Bool → ℕ → Value → Type 0
  IsBounded w k (Value.int z) = Unit
  IsBounded w k (Value.uint n) = Unit
  IsBounded w k (Value.bool b) = Unit
  IsBounded w k (Value.buffer bytes) = length bytes ≤ max_value_size
  IsBounded w k (Value.list xs) = (count_items xs ≤ max_value_size) × AreBounded w k xs
  IsBounded w k (Value.string_utf8 chars) = All (λ char. 0 < length char) chars
  IsBounded w k (Value.string_ascii bytes) = length bytes ≤ max_value_size
  IsBounded w k (Value.principal_standard p) = length p.hash_bytes ≡ 20
  IsBounded w k (Value.principal_contract p) = length p.issuer.hash_bytes ≡ 20
  IsBounded w k (Value.tuple fs) = (count_fields fs ≤ max_value_size) × HasBounded w k fs
  IsBounded w k (Value.optional_some v) = IsBoundedOf w k v
  IsBounded w k Value.optional_none = Unit
  IsBounded w k (Value.response_ok v) = IsBoundedOf w k v
  IsBounded w k (Value.response_err v) = IsBoundedOf w k v

  pub IsBoundedOf : Bool → ℕ → ClarityValue → Type 0
  IsBoundedOf w zero (clarity_value bytes v) = ⊥
  IsBoundedOf w (suc k) (clarity_value bytes v) = KeepsBytes w bytes × IsBounded w k v

  pub AreBounded : Bool → ℕ → Items → Type 0
  AreBounded w k Items.no_items = Unit
  AreBounded w k (Items.item v xs) = IsBoundedOf w k v × AreBounded w k xs

  pub HasBounded : Bool → ℕ → Fields → Type 0
  HasBounded w k Fields.no_fields = Unit
  HasBounded w k (Fields.field key v fs) = IsBoundedOf w k v × HasBounded w k fs
