-- ===== src/Clarity/Repr.antt =====
-- `Value::repr_string` of src/clarity_value/types.rs, and the encoders of src/hex.rs. The crate
-- hex_simd is a parameter, a function from bytes to hexadecimal text in lower case.
use stacks_encoding_native_j.Prelude.{ℕ, suc, ◌≤◌, ◌≡◌, refl, ℤ, pos, negsuc, Bool, true, false}
use stacks_encoding_native_j.Prelude.{List, [], ◌∷◌, ◌++◌, codes, length, ltb, le→ltb, get_elem?}
use stacks_encoding_native_j.Prelude.{if◌then◌else◌, Outcome, ok, panic, ◌>>=◌, unwrap, or_panic}
use stacks_encoding_native_j.Text.Decimal.{decimal}
use stacks_encoding_native_j.Text.Escape.{escape_default}
use stacks_encoding_native_j.Address.Crockford.Defs.{C32Error}
use stacks_encoding_native_j.Address.Crockford.Check.{c32_address, c32_check_encode_prefixed}
use stacks_encoding_native_j.Clarity.Types.{
  Value, ClarityValue, Items, Fields, StandardPrincipalData, clarity_value,
}

-- The writer, whose only failure is a panic.
abbrev Written : Type 0
Written = Outcome C32Error (List ℕ)

unfoldable pub show_int : ℤ → List ℕ
show_int (pos n) = decimal n
show_int (negsuc n) = codes "-" ++ decimal (suc n)

unfoldable pub show_bool : Bool → List ℕ
show_bool true = codes "true"
show_bool false = codes "false"

unfoldable pub escape_ascii : List ℕ → List ℕ
escape_ascii [] = []
escape_ascii (c ∷ text) = escape_default c ++ escape_ascii text

module _ (sha256 : List ℕ → List ℕ) (hex_encode : List ℕ → List ℕ) where
  unfoldable pub encode_hex : List ℕ → List ℕ
  encode_hex bytes = codes "0x" ++ hex_encode bytes

  unfoldable pub encode_hex_no_prefix : List ℕ → List ℕ
  encode_hex_no_prefix bytes = hex_encode bytes

  unfoldable pub show_principal : StandardPrincipalData → Written
  show_principal p = unwrap {F = C32Error} (c32_address sha256 p.version p.hash_bytes)

  -- One character of a UTF-8 string: escaped if it has several bytes.
  unfoldable pub show_char : List ℕ → Written
  show_char char =
      let escaped : Written = ok (codes "\\u{" ++ encode_hex_no_prefix char ++ codes "}") in
      let ascii : Written = do c ← or_panic (get_elem? char 0); ok (escape_default c)
      in if ltb 1 (length char) then escaped else ascii

  unfoldable pub show_chars : List (List ℕ) → Written
  show_chars [] = ok []
  show_chars (char ∷ chars) = do first ← show_char char; rest ← show_chars chars; ok (first ++ rest)

  -- `repr_string_to_buffer`, and its loops over lists and tuples.
  unfoldable mutual
    pub repr_string : Value → Written
    repr_string (Value.int z) = ok (show_int z)
    repr_string (Value.uint n) = ok (codes "u" ++ decimal n)
    repr_string (Value.bool b) = ok (show_bool b)
    repr_string (Value.optional_some v) = do
      text ← repr_of v
      ok (codes "(some " ++ text ++ codes ")")
    repr_string Value.optional_none = ok (codes "none")
    repr_string (Value.response_ok v) = do text ← repr_of v; ok (codes "(ok " ++ text ++ codes ")")
    repr_string (Value.response_err v) = do
      text ← repr_of v
      ok (codes "(err " ++ text ++ codes ")")
    repr_string (Value.tuple fs) = do
      text ← repr_fields fs
      ok (codes "(tuple" ++ text ++ codes ")")
    repr_string (Value.principal_standard p) = do
      address ← show_principal p
      ok (codes "'" ++ address)
    repr_string (Value.principal_contract p) = do
      address ← show_principal p.issuer
      ok (codes "'" ++ address ++ codes "." ++ p.name)
    repr_string (Value.buffer bytes) = ok (encode_hex bytes)
    repr_string (Value.list xs) = do text ← repr_items xs; ok (codes "(list" ++ text ++ codes ")")
    repr_string (Value.string_ascii text) = ok (codes "\"" ++ escape_ascii text ++ codes "\"")
    repr_string (Value.string_utf8 chars) = do
      text ← show_chars chars
      ok (codes "u\"" ++ text ++ codes "\"")

    pub repr_of : ClarityValue → Written
    repr_of (clarity_value bytes v) = repr_string v

    pub repr_items : Items → Written
    repr_items Items.no_items = ok []
    repr_items (Items.item v xs) = do
      first ← repr_of v
      rest ← repr_items xs
      ok (codes " " ++ first ++ rest)

    pub repr_fields : Fields → Written
    repr_fields Fields.no_fields = ok []
    repr_fields (Fields.field key v fs) = do
      first ← repr_of v
      rest ← repr_fields fs
      ok (codes " (" ++ key ++ codes " " ++ first ++ codes ")" ++ rest)

  -- A standard principal with a version of 32 or more makes `repr_string` panic.
  pub repr_string-panic :
      (p : StandardPrincipalData)
      → 32 ≤ p.version
      → repr_string (Value.principal_standard p) ≡ panic
  unfolding repr_string show_principal c32_address c32_check_encode_prefixed
  repr_string-panic p h = rw (le→ltb p.version 32 h) refl
