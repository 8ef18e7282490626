-- ===== src/Clarity/Frames.antt =====
-- Panics and consumption of the deserializers of clarity_value/deserialize.rs.
use stacks_encoding_native_j.Prelude.{arith, not, leb}
use stacks_encoding_native_j.Wire.Error.{type_signature_too_deep}
use stacks_encoding_native_j.Prelude.{ℕ, zero, suc, ◌+◌, ◌%◌, Bool, true, false}
use stacks_encoding_native_j.Wire.Reader.{Reader}
use stacks_encoding_native_j.Wire.ByteOrder.{big_endian}
use stacks_encoding_native_j.Wire.Consumes.{
  Consumes, Consumes-bind, Consumes-position, Consumes-ensure, Consumes-exact,
}
use stacks_encoding_native_j.Wire.Frames.{
  Frames, Frames-pure, Frames-hangs, Frames-ok_or, Frames-ok_or_str, Frames-ensure,
  Frames-ensure_str, Frames-bind, Frames-then, Frames-position, Frames-exact, Frames-slice,
  Frames-be,
}
use stacks_encoding_native_j.Clarity.TypePrefix.{TypePrefix}
use stacks_encoding_native_j.Clarity.Types.{ClarityValue, Value, Fields, Items, insert}
use stacks_encoding_native_j.Clarity.Names.{read_clarity_name, read_standard_principal}
use stacks_encoding_native_j.Clarity.Deserialize.{
  read_size, read_items, read_fields, read_body, finish, inner_deserialize_read, deserialize,
}

module _ (n : ℕ) where
  pub Frames-name : Frames n (read_clarity_name big_endian)
  unfolding read_clarity_name
  Frames-name = Frames-bind n _ _ (Frames-be n 1) λ len.
      Frames-then n _ _ (Frames-ensure n _ _)
        (Frames-bind n _ _ (Frames-exact n len) λ bytes. Frames-ok_or n _ _)

  pub Frames-principal : Frames n (read_standard_principal big_endian)
  unfolding read_standard_principal
  Frames-principal =
      Frames-bind n _ _ (Frames-be n 1)
        λ v. Frames-bind n _ _ (Frames-exact n 20) λ bytes. Frames-pure n _

  Frames-size : Frames n read_size
  unfolding read_size
  Frames-size =
      Frames-bind n _ _ (Frames-exact n 4)
        λ bytes. Frames-then n _ _ (Frames-ensure_str n _) (Frames-pure n _)

  -- A length, its bytes, and a value made of them.
  module _ (p : Reader ClarityValue) (h : Frames n p) where
    Frames-items : (k : ℕ) → Frames n (read_items p k)
    unfolding read_items
    Frames-items zero = Frames-pure n Items.no_items
    Frames-items (suc k) =
        Frames-bind n _ _ h
          λ v. Frames-bind n _ _ (Frames-items k) λ vs. Frames-pure n (Items.item v vs)

    Frames-fields : (k : ℕ) (entries : Fields) → Frames n (read_fields big_endian p k entries)
    unfolding read_fields
    Frames-fields zero entries = Frames-pure n entries
    Frames-fields (suc k) entries =
        Frames-bind n _ _ Frames-name
          λ key. Frames-bind n _ _ h λ v. Frames-fields k (insert key v entries)

    pub Frames-body : (prefix : TypePrefix) → Frames n (read_body big_endian p prefix)
    unfolding read_body
    Frames-body TypePrefix.int = Frames-bind n _ _ (Frames-exact n 16) λ bs. Frames-pure n _
    Frames-body TypePrefix.uint = Frames-bind n _ _ (Frames-exact n 16) λ bs. Frames-pure n _
    Frames-body TypePrefix.buffer =
        Frames-bind n _ _ Frames-size
          λ len. Frames-bind n _ _ (Frames-exact n len) λ bs. Frames-pure n _
    Frames-body TypePrefix.bool_true = Frames-pure n _
    Frames-body TypePrefix.bool_false = Frames-pure n _
    Frames-body TypePrefix.principal_standard =
        Frames-bind n _ _ Frames-principal λ p. Frames-pure n _
    Frames-body TypePrefix.principal_contract =
        Frames-bind n _ _ Frames-principal
          λ p. Frames-bind n _ _ Frames-name λ name. Frames-pure n _
    Frames-body TypePrefix.response_ok = Frames-bind n _ _ h λ v. Frames-pure n _
    Frames-body TypePrefix.response_err = Frames-bind n _ _ h λ v. Frames-pure n _
    Frames-body TypePrefix.optional_none = Frames-pure n _
    Frames-body TypePrefix.optional_some = Frames-bind n _ _ h λ v. Frames-pure n _
    Frames-body TypePrefix.list =
        Frames-bind n _ _ Frames-size
          λ len. Frames-bind n _ _ (Frames-items len) λ vs. Frames-pure n _
    Frames-body TypePrefix.tuple =
        Frames-bind n _ _ Frames-size
          λ len. Frames-bind n _ _ (Frames-fields len Fields.no_fields) λ fs. Frames-pure n _
    Frames-body TypePrefix.string_ascii =
        Frames-bind n _ _ Frames-size
          λ len. Frames-bind n _ _ (Frames-exact n len) λ bs. Frames-pure n _
    Frames-body TypePrefix.string_utf8 =
        Frames-bind n _ _ Frames-size
          λ len. Frames-bind n _ _ (Frames-exact n len) λ bs. Frames-pure n _

Frames-finish : (w : Bool) (m : ℕ) (v : Value) → Frames m (finish big_endian w m v)
unfolding finish
Frames-finish true m v = Frames-bind m _ _ (Frames-slice m) λ bs. Frames-pure m _
Frames-finish false m v = Frames-pure m _

pub Frames-inner :
    (n fuel depth : ℕ) (w : Bool) → Frames n (inner_deserialize_read big_endian fuel depth w)
unfolding inner_deserialize_read
Frames-inner n zero depth w = Frames-hangs n
Frames-inner n (suc fuel) depth w = Frames-then n _ _ (Frames-ensure n _ _) (
    Frames-position n _ λ m. Frames-bind m _ _ (Frames-exact m 1) λ header.
      Frames-bind m _ _ (Frames-ok_or_str m _) λ prefix.
        Frames-bind m _ _ (Frames-body m _ (Frames-inner m fuel ((depth + 1) % 256) w) prefix)
          λ v. Frames-finish w m v)

pub Frames-deserialize : (n : ℕ) (w : Bool) → Frames n (deserialize big_endian w)
unfolding deserialize
Frames-deserialize n w = Frames-inner n 17 0 w

-- A value takes at least its type prefix.
pub Consumes-deserialize : (n : ℕ) (w : Bool) → Consumes n (deserialize big_endian w)
unfolding deserialize inner_deserialize_read
Consumes-deserialize n w = Consumes-ensure n (not (leb 16 0)) (type_signature_too_deep 0) _ (
    Consumes-position n _ λ m. Consumes-bind m _ _ (Consumes-exact m 1 (omega arith)) λ header.
      Frames-bind m _ _ (Frames-ok_or_str m _) λ prefix.
        Frames-bind m _ _ (Frames-body m _ (Frames-inner m 16 1 w) prefix) λ v. Frames-finish w m v)
