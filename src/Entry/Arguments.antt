-- ===== src/Entry/Arguments.antt =====
-- `decode_hex` of src/hex.rs, and the arguments of src/neon_util.rs. The crate hex_simd is a
-- parameter, a function that decodes hexadecimal text without a prefix.
use stacks_encoding_native_j.Prelude.{
  ℕ, List, [], ◌∷◌, Option, none, some, ◌&&◌, ◌==◌, if◌then◌else◌, Bool, Outcome, ok, err, ◌>>=◌,
  ok_or,
}
use stacks_encoding_native_j.Wire.Error.{DeserializeError}
use stacks_encoding_native_j.Wire.Cursor.{Cursor}
use stacks_encoding_native_j.Address.Crockford.Defs.{C32Error}
use stacks_encoding_native_j.Address.Bitcoin.{ConversionError}
use stacks_encoding_native_j.Address.Principal.{PrincipalError}

-- What the code can tell of an argument.
pub data JsArgument : Type 0 where
  js_string : List ℕ → JsArgument
  js_buffer : List ℕ → JsArgument
  js_boolean : Bool → JsArgument
  js_other : JsArgument

-- The errors that are thrown, with a constructor for each text around them.
pub data Thrown : Type 0 where
  missing_argument : Thrown
  not_bytes : Thrown
  not_a_boolean : Thrown
  not_a_string : Thrown
  hex_parsing : Thrown
  deserializing : DeserializeError → Thrown
  no_address : C32Error → Thrown
  bad_address : C32Error → Thrown
  no_conversion : ConversionError → Thrown
  no_principal : PrincipalError → Thrown

-- The cursor at the start of a slice.
abbrev pub cursor_new : List ℕ → Cursor
cursor_new bytes = record { consumed = []; rest = bytes }

module _ (hex_decode : List ℕ → Option (List ℕ)) where
  unfoldable pub decode_hex : List ℕ → Option (List ℕ)
  decode_hex [] = some []
  decode_hex (a ∷ []) = hex_decode (a ∷ [])
  decode_hex (a ∷ b ∷ text) =
      if a == b'0' && b == b'x' then hex_decode text else hex_decode (a ∷ b ∷ text)

  -- `arg_as_bytes_copied`, and the part of `arg_as_bytes` before the callback.
  unfoldable pub arg_bytes : Option JsArgument → Outcome Thrown (List ℕ)
  arg_bytes none = err missing_argument
  arg_bytes (some (js_string text)) = ok_or (decode_hex text) hex_parsing
  arg_bytes (some (js_buffer bytes)) = ok bytes
  arg_bytes (some (js_boolean b)) = err not_bytes
  arg_bytes (some js_other) = err not_bytes

  unfoldable pub arg_as_bytes {ℓ} :
      {A : Type ℓ} → Option JsArgument → (List ℕ → Outcome Thrown A) → Outcome Thrown A
  arg_as_bytes arg callback = do bytes ← arg_bytes arg; callback bytes
