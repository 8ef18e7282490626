-- ===== src/Entry/Memo.antt =====
-- `memo_to_string` of src/memo/mod.rs, from its argument.
use stacks_encoding_native_j.Prelude.{
  Bool, ℕ, List, [], ◌∷◌, Option, some, ok, All, ◌<◌, ◌≡◌, arith, ◌∙◌, ap,
}
use stacks_encoding_native_j.Text.Words.{words, join}
use stacks_encoding_native_j.Clarity.Repr.{encode_hex}
use stacks_encoding_native_j.Entry.Arguments.{js_string}
use stacks_encoding_native_j.Entry.Hex.{IsHex, arg_as_bytes-encode_hex}
use stacks_encoding_native_j.Memo.{memo_normalize, memo_to_string}
use stacks_encoding_native_j.Memo.Words.{IsReplaceAll}
use stacks_encoding_native_j.Memo.Ascii.{IsPlain, IsUnicode, is_gap, memo_normalize-ascii}

bytes_of : (text : List ℕ) → All IsPlain text → All (λ x. x < 256) text
bytes_of [] l = tt
bytes_of (c ∷ text) l = (omega (arith, l.0.0), bytes_of text l.1)

module _ (is_printable : List ℕ → Bool) (graphemes : List (List ℕ) → List (List (List ℕ)))
    (replace_all : List (List ℕ) → List (List ℕ)) (u : IsUnicode is_printable graphemes)
    (r : IsReplaceAll replace_all) (sha256 : List ℕ → List ℕ) (hex_encode : List ℕ → List ℕ)
    (hex_decode : List ℕ → Option (List ℕ)) (h : IsHex hex_encode hex_decode) where
  -- For `is_printable` and grapheme clusters as documented on ASCII, and a `replace_all` and a
  -- hexadecimal coder as documented: on the text of `encode_hex` of ASCII bytes without carriage
  -- returns, `memo_to_string` returns the longest runs of characters from 33 to 126 among them, in
  -- order, with one space between two of them.
  pub memo_to_string-encode_hex :
      (text : List ℕ)
      → All IsPlain text
      → memo_to_string is_printable graphemes replace_all hex_decode
          (some (js_string (encode_hex sha256 hex_encode text)))
        ≡ ok (join 32 (words is_gap text))
  unfolding memo_to_string
  memo_to_string-encode_hex text l =
      (arg_as_bytes-encode_hex sha256 hex_encode hex_decode h text
        (λ bytes. ok (memo_normalize is_printable graphemes replace_all bytes)) (bytes_of text l)).0
      ∙ ap ok (memo_normalize-ascii is_printable graphemes replace_all u r text l)
