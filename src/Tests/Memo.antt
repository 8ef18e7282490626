-- ===== src/Tests/Memo.antt =====
-- Functions that stand for the crates that src/memo/mod.rs uses, on ASCII, and instances of the
-- theorems on memos.
use stacks_encoding_native_j.Prelude.{some, ok}
use stacks_encoding_native_j.Clarity.Repr.{encode_hex}
use stacks_encoding_native_j.Entry.Arguments.{js_string}
use stacks_encoding_native_j.Entry.Memo.{memo_to_string-encode_hex}
use stacks_encoding_native_j.Tests.Hex.{to_hex, from_hex, IsHex-to_hex}
use stacks_encoding_native_j.Tests.Address.{digest}
use stacks_encoding_native_j.Prelude.{
  ℕ, List, [], ◌∷◌, ◌++◌, Bool, true, false, ltb, leb, ◌&&◌, All, ◌≡◌, refl, arith, map, ap,
  flatten,
}
use stacks_encoding_native_j.Text.Lossy.{lossy_chars}
use stacks_encoding_native_j.Text.Words.{attach, first_word, words, each_behind, join}
use stacks_encoding_native_j.Memo.{space, push_graphemes, memo_normalize, memo_to_string}
use stacks_encoding_native_j.Memo.Words.{
  is_blank, starts_blank, IsReplaceAll, collapse, memo_normalize-words,
}
use stacks_encoding_native_j.Memo.Ascii.{single, IsUnicode, is_gap, memo_normalize-ascii}

collapse-run :
    (run rest : List (List ℕ))
    → All (λ x. is_blank x ≡ true) run
    → starts_blank rest ≡ false
    → collapse true (run ++ rest) ≡ collapse false rest
unfolding collapse
collapse-run [] [] l e = refl
collapse-run [] (c ∷ rest) l e = rw e refl
collapse-run (b ∷ run) rest l e = rw l.0 (collapse-run run rest l.1 e)

IsReplaceAll-collapse : IsReplaceAll (collapse false)
unfolding collapse
IsReplaceAll-collapse = record {
  replace_end = refl;
  replace_other = λ c chars e. rw e refl;
  replace_run = λ c run rest l e. rw l.0 (ap (λ t. space ∷ t) (collapse-run run rest l.1 e));
}

ascii_printable : List ℕ → Bool
ascii_printable (c ∷ []) = leb 32 c && ltb c 127
ascii_printable _ = true

each_single : List (List ℕ) → List (List (List ℕ))
each_single chars = map single chars

clusters-each_single :
    (text : List ℕ) → each_single (map single text) ≡ map (λ c. single (single c)) text
unfolding each_single
clusters-each_single [] = refl
clusters-each_single (c ∷ text) = ap (λ t. single (single c) ∷ t) (clusters-each_single text)

IsUnicode-ascii : IsUnicode ascii_printable each_single
unfolding ascii_printable
IsUnicode-ascii = record { printable = λ c l. refl; clusters = λ text l. clusters-each_single text }

-- The text "  hi", two zeros, "you" and a zero.
abbrev padded_memo : List ℕ
padded_memo = 32 ∷ 32 ∷ b'h' ∷ b'i' ∷ 0 ∷ 0 ∷ b'y' ∷ b'o' ∷ b'u' ∷ 0 ∷ []

padded_memo-words : join 32 (words is_gap padded_memo) ≡ b'h' ∷ b'i' ∷ 32 ∷ b'y' ∷ b'o' ∷ b'u' ∷ []
unfolding join words is_gap attach first_word each_behind
padded_memo-words = refl

memo_normalize-words_example :
    memo_normalize ascii_printable each_single (collapse false) (0xff ∷ padded_memo)
    ≡ flatten (
        join space (
          words is_blank
            (push_graphemes ascii_printable (each_single (lossy_chars (0xff ∷ padded_memo))))))
memo_normalize-words_example =
    memo_normalize-words ascii_printable each_single (collapse false) IsReplaceAll-collapse
      (0xff ∷ padded_memo)

memo_normalize-ascii_example :
    memo_normalize ascii_printable each_single (collapse false) padded_memo
    ≡ join 32 (words is_gap padded_memo)
memo_normalize-ascii_example =
    memo_normalize-ascii ascii_printable each_single (collapse false) IsUnicode-ascii
      IsReplaceAll-collapse padded_memo (ground arith)

memo_to_string-encode_hex_example :
    memo_to_string ascii_printable each_single
      (collapse false)
      from_hex
      (some (js_string (encode_hex digest to_hex padded_memo)))
    ≡ ok (join 32 (words is_gap padded_memo))
memo_to_string-encode_hex_example =
    memo_to_string-encode_hex ascii_printable each_single (collapse false) IsUnicode-ascii
      IsReplaceAll-collapse digest to_hex from_hex IsHex-to_hex padded_memo (ground arith)
