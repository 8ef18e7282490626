-- ===== src/Tests/Hex.antt =====
-- A hexadecimal coder as src/hex.rs uses it, and an instance of the theorem on arguments.
use stacks_encoding_native_j.Prelude.{
  ℕ, ◌+◌, ◌-◌, ◌*◌, ◌/◌, ◌%◌, ◌<◌, ◌≤◌, ◌≡◌, refl, arith, List, [], ◌∷◌, length, All, Option, none,
  some, ltb, if◌then◌else◌, Outcome, ok, codes,
}
use stacks_encoding_native_j.Clarity.Repr.{encode_hex, encode_hex_no_prefix}
use stacks_encoding_native_j.Entry.Arguments.{js_string, js_buffer, Thrown, arg_as_bytes}
use stacks_encoding_native_j.Entry.Hex.{IsHex, arg_as_bytes-encode_hex}
use stacks_encoding_native_j.Tests.Address.{digest}

unfoldable pub nibble : ℕ → ℕ
nibble n = if ltb (n % 16) 10 then n % 16 + 48 else n % 16 + 87

nibble_value : ℕ → ℕ
nibble_value c = if ltb c 58 then c - 48 else c - 87

unfoldable pub to_hex : List ℕ → List ℕ
unfolding nibble
to_hex [] = []
to_hex (x ∷ bytes) = nibble (x / 16) ∷ nibble x ∷ to_hex bytes

unfoldable pub cons_byte : ℕ → Option (List ℕ) → Option (List ℕ)
cons_byte x (some bytes) = some (x ∷ bytes)
cons_byte x none = none

unfoldable pub from_hex : List ℕ → Option (List ℕ)
unfolding nibble_value
from_hex [] = some []
from_hex (a ∷ []) = none
from_hex (a ∷ b ∷ text) = cons_byte (nibble_value a * 16 + nibble_value b) (from_hex text)

nibble-le : (n : ℕ) → nibble n ≤ b'f'
unfolding nibble
nibble-le n = ground arith

nibble_value-nibble : (n : ℕ) → nibble_value (nibble n) ≡ n % 16
unfolding nibble nibble_value
nibble_value-nibble n = ground arith

length-to_hex : (bytes : List ℕ) → length (to_hex bytes) ≡ 2 * length bytes
unfolding to_hex
length-to_hex [] = refl
length-to_hex (x ∷ bytes) = omega (arith, length-to_hex bytes)

to_hex-digits : (bytes : List ℕ) → All (λ c. c ≤ b'f') (to_hex bytes)
unfolding to_hex
to_hex-digits [] = tt
to_hex-digits (x ∷ bytes) = (nibble-le (x / 16), (nibble-le x, to_hex-digits bytes))

from_hex-to_hex : (bytes : List ℕ) → All (λ x. x < 256) bytes → from_hex (to_hex bytes) ≡ some bytes
unfolding to_hex from_hex cons_byte
from_hex-to_hex [] h = refl
from_hex-to_hex (x ∷ bytes) h =
    let joined : nibble_value (nibble (x / 16)) * 16 + nibble_value (nibble x) ≡ x =
      omega (arith, nibble_value-nibble (x / 16), nibble_value-nibble x, h.0) in
    rw (from_hex-to_hex bytes h.1, joined) refl

pub IsHex-to_hex : IsHex to_hex from_hex
IsHex-to_hex = record {
  hex_length = length-to_hex;
  hex_digits = to_hex-digits;
  hex_decode-hex_encode = from_hex-to_hex;
}

abbrev two_bytes : List ℕ
two_bytes = 0x0a ∷ 0xf0 ∷ []

two_bytes_text : encode_hex digest to_hex two_bytes ≡ codes "0x0af0"
unfolding encode_hex to_hex nibble
two_bytes_text = refl

abbrev keep : List ℕ → Outcome Thrown (List ℕ)
keep bytes = ok bytes

arg_as_bytes-encode_hex_example :
    (arg_as_bytes from_hex (some (js_string (encode_hex digest to_hex two_bytes))) keep
      ≡ ok two_bytes)
    × (arg_as_bytes from_hex (some (js_string (encode_hex_no_prefix digest to_hex two_bytes))) keep
        ≡ ok two_bytes)
    × (arg_as_bytes from_hex (some (js_buffer two_bytes)) keep ≡ ok two_bytes)
arg_as_bytes-encode_hex_example =
    arg_as_bytes-encode_hex digest to_hex from_hex IsHex-to_hex two_bytes keep
      (omega arith, (omega arith, tt))
