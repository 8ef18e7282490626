-- ===== src/Entry/Hex.antt =====
-- `decode_hex` and the encoders of src/hex.rs, and the two kinds of arguments of src/neon_util.rs.
use stacks_encoding_native_j.Prelude.{
  ℕ, ◌*◌, ◌<◌, ◌≤◌, ◌≡◌, refl, arith, List, [], ◌∷◌, length, All, Option, some, Outcome, ◌==◌, Bool,
  true, false, ◌&&◌,
}
use stacks_encoding_native_j.Clarity.Repr.{encode_hex, encode_hex_no_prefix}
use stacks_encoding_native_j.Entry.Arguments.{
  js_string, js_buffer, Thrown, decode_hex, arg_bytes, arg_as_bytes,
}

-- What the crate hex_simd documents of its encoder to lower case and its decoder.
pub record IsHex (hex_encode : List ℕ → List ℕ) (hex_decode : List ℕ → Option (List ℕ))
    : Type 0 where
  pub hex_length : (bytes : List ℕ) → length (hex_encode bytes) ≡ 2 * length bytes
  pub hex_digits : (bytes : List ℕ) → All (λ c. c ≤ b'f') (hex_encode bytes)
  pub hex_decode-hex_encode :
      (bytes : List ℕ) → All (λ x. x < 256) bytes → hex_decode (hex_encode bytes) ≡ some bytes

and-false : (t : Bool) → (t && false) ≡ false
and-false true = refl
and-false false = refl

module _ (sha256 : List ℕ → List ℕ) (hex_encode : List ℕ → List ℕ)
    (hex_decode : List ℕ → Option (List ℕ)) (h : IsHex hex_encode hex_decode) where
  -- A text without an x is not taken for one with a prefix.
  unprefixed :
      (text bytes : List ℕ)
      → All (λ c. c ≤ b'f') text
      → length text ≡ 2 * length bytes
      → hex_decode text ≡ some bytes
      → decode_hex hex_decode text ≡ some bytes
  unfolding decode_hex
  unprefixed [] [] k l e = refl
  unprefixed [] (x ∷ bytes) k l e = absurd (omega arith)
  unprefixed (a ∷ []) bytes k l e = e
  unprefixed (a ∷ b ∷ text) bytes k l e =
      let not_x : (b == b'x') ≡ false = ground (arith, k.1.0) in rw (not_x, and-false (a == b'0')) e

  -- For a hexadecimal coder as documented and a list of bytes: an argument that is their text with
  -- the prefix 0x, their text without it, or a buffer of them passes the same bytes to the
  -- callback.
  pub arg_as_bytes-encode_hex :
      {A : Type 0} (bytes : List ℕ) (callback : List ℕ → Outcome Thrown A)
      → All (λ x. x < 256) bytes
      → (arg_as_bytes hex_decode (some (js_string (encode_hex sha256 hex_encode bytes))) callback
          ≡ callback bytes)
        × (arg_as_bytes hex_decode
              (some (js_string (encode_hex_no_prefix sha256 hex_encode bytes)))
              callback
            ≡ callback bytes)
        × (arg_as_bytes hex_decode (some (js_buffer bytes)) callback ≡ callback bytes)
  unfolding arg_as_bytes arg_bytes encode_hex encode_hex_no_prefix
  arg_as_bytes-encode_hex bytes callback d = (
    unfold decode_hex in rw (h.hex_decode-hex_encode bytes d) refl,
    rw
        (unprefixed (hex_encode bytes) bytes (h.hex_digits bytes) (h.hex_length bytes)
          (h.hex_decode-hex_encode bytes d))
        refl,
    refl,
  )
