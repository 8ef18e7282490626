-- ===== src/Memo.antt =====
-- src/memo/mod.rs: the text of a memo. The crates unicode-segmentation and regex are parameters,
-- functions that divide a text into grapheme clusters and that replace the matches of the
-- expression in the source; so is `is_printable` of src/memo/unicode_printable.rs, which is a copy
-- of a file of Rust's standard library. A text is the list of its characters, each in UTF-8.
pub mod Words
pub mod Ascii
use stacks_encoding_native_j.Prelude.{
  ℕ, List, [], ◌∷◌, ◌++◌, Bool, if◌then◌else◌, Option, Outcome, ok, flatten,
}
use stacks_encoding_native_j.Text.Lossy.{lossy_chars}
use stacks_encoding_native_j.Text.Trim.{trim}
use stacks_encoding_native_j.Entry.Arguments.{JsArgument, Thrown, arg_as_bytes}

-- The character ' '.
abbrev pub space : List ℕ
space = 32 ∷ []

module _ (is_printable : List ℕ → Bool) where
  -- A character that is a cluster by itself is kept if it is printable, a longer cluster always.
  unfoldable pub push_grapheme : List (List ℕ) → List (List ℕ)
  push_grapheme (c ∷ []) = if is_printable c then c ∷ [] else space ∷ []
  push_grapheme chars = chars

  unfoldable pub push_graphemes : List (List (List ℕ)) → List (List ℕ)
  push_graphemes [] = []
  push_graphemes (g ∷ graphemes) = push_grapheme g ++ push_graphemes graphemes

  module _ (graphemes : List (List ℕ) → List (List (List ℕ)))
      (replace_all : List (List ℕ) → List (List ℕ)) where
    unfoldable pub memo_normalize : List ℕ → List ℕ
    memo_normalize input =
        let result_str = push_graphemes (graphemes (lossy_chars input)) in
        flatten (trim (replace_all result_str))

    unfoldable pub memo_to_string :
        (List ℕ → Option (List ℕ)) → Option JsArgument → Outcome Thrown (List ℕ)
    memo_to_string hex_decode arg =
        arg_as_bytes hex_decode arg λ input_bytes. ok (memo_normalize input_bytes)
