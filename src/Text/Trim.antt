-- ===== src/Text/Trim.antt =====
-- White space and `str::trim` of Rust's standard library, on the characters of a text, each in
-- UTF-8.
use stacks_encoding_native_j.Prelude.{
  ℕ, List, [], ◌∷◌, Bool, true, false, ◌&&◌, ◌||◌, ◌==◌, leb, if◌then◌else◌,
}

-- `char::is_whitespace`, the property White_Space of Unicode.
unfoldable pub is_whitespace : List ℕ → Bool
is_whitespace (a ∷ []) = leb 9 a && leb a 13 || a == 32
is_whitespace (a ∷ b ∷ []) = a == 0xc2 && (b == 0x85 || b == 0xa0)
is_whitespace (a ∷ b ∷ c ∷ []) =
    a == 0xe1 && b == 0x9a && c == 0x80
    || a == 0xe2 && b == 0x80 && (leb 0x80 c && leb c 0x8a || c == 0xa8 || c == 0xa9 || c == 0xaf)
    || a == 0xe2 && b == 0x81 && c == 0x9f
    || a == 0xe3 && b == 0x80 && c == 0x80
is_whitespace _ = false

abbrev pub null {ℓ} : {A : Type ℓ} → List A → Bool
null [] = true
null (x ∷ xs) = false

unfoldable pub trim_start : List (List ℕ) → List (List ℕ)
trim_start [] = []
trim_start (c ∷ chars) = let rest = trim_start chars in if is_whitespace c then rest else c ∷ chars

unfoldable pub trim_end : List (List ℕ) → List (List ℕ)
trim_end [] = []
trim_end (c ∷ chars) =
    let rest = trim_end chars in if null rest && is_whitespace c then [] else c ∷ rest

unfoldable pub trim : List (List ℕ) → List (List ℕ)
trim chars = trim_end (trim_start chars)
