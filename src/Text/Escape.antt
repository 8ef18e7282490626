-- ===== src/Text/Escape.antt =====
-- `std::ascii::escape_default` of Rust's standard library.
use stacks_encoding_native_j.Prelude.{
  ℕ, ◌+◌, ◌-◌, ◌/◌, ◌%◌, List, [], ◌∷◌, leb, ltb, ◌==◌, ◌&&◌, ◌||◌, if◌then◌else◌,
}

-- A hexadecimal digit in lower case.
unfoldable pub hex_digit : ℕ → ℕ
hex_digit d = if ltb d 10 then b'0' + d else b'a' + (d - 10)

unfoldable pub escape_default : ℕ → List ℕ
escape_default c =
    if c == 0x09
    then 0x5c ∷ b't' ∷ []
    else if c == 0x0d
    then 0x5c ∷ b'r' ∷ []
    else if c == 0x0a
    then 0x5c ∷ b'n' ∷ []
    else if c == 0x27 || c == 0x22 || c == 0x5c
    then 0x5c ∷ c ∷ []
    else if leb 0x20 c && ltb c 0x7f
    then c ∷ []
    else 0x5c ∷ b'x' ∷ hex_digit (c / 16) ∷ hex_digit (c % 16) ∷ []
