-- ===== src/Memo/Ascii.antt =====
-- What src/memo/mod.rs leaves of ASCII text, as most memos are, with the zeros that fill them up.
use stacks_encoding_native_j.Prelude.{
  ℕ, ◌<◌, List, [], ◌∷◌, ◌++◌, Bool, true, false, ◌||◌, ◌&&◌, ltb, leb, ◌==◌, Bool-cases, inl, inr,
  if◌then◌else◌, All, ◌≡◌, ◌≢◌, refl, sym, ap, ◌∙◌, flatten, arith, map,
}
use stacks_encoding_native_j.Text.Utf8.{utf8_next-ascii}
use stacks_encoding_native_j.Text.Lossy.{lossy_chars}
use stacks_encoding_native_j.Text.Chars.{IsChar, last, lossy_chars-flatten}
use stacks_encoding_native_j.Text.Trim.{is_whitespace}
use stacks_encoding_native_j.Text.Words.{attach, first_word, words, each_behind, join}
use stacks_encoding_native_j.Memo.{space, push_grapheme, push_graphemes, memo_normalize}
use stacks_encoding_native_j.Memo.Words.{
  is_blank, is_replacement, IsReplaceAll, memo_normalize-words,
}

abbrev pub single {ℓ} : {A : Type ℓ} → A → List A
single x = x ∷ []

-- An ASCII character other than a carriage return, which is not a cluster by itself before a line
-- feed.
abbrev pub IsPlain : ℕ → Type 0
IsPlain c = (c < 128) × (c ≢ 13)

-- What is documented for ASCII of `is_printable`, and of the division into grapheme clusters.
pub record IsUnicode (is_printable : List ℕ → Bool)
    (graphemes : List (List ℕ) → List (List (List ℕ))) : Type 0 where
  pub printable : (c : ℕ) → c < 128 → is_printable (single c) ≡ (leb 32 c && ltb c 127)
  pub clusters :
      (text : List ℕ)
      → All IsPlain text
      → graphemes (map single text) ≡ map (λ c. single (single c)) text

-- The space and what is not printable.
unfoldable pub is_gap : ℕ → Bool
is_gap c = leb c 32 || c == 127

-- The character that the loop puts for an ASCII character.
shown : ℕ → List ℕ
shown c = if leb 32 c && ltb c 127 then single c else space

All-IsChar : (text : List ℕ) → All IsPlain text → All IsChar (map single text)
All-IsChar [] l = tt
All-IsChar (c ∷ text) l = (last c (utf8_next-ascii c l.0.0), All-IsChar text l.1)

flatten-single : (text : List ℕ) → flatten (map single text) ≡ text
flatten-single [] = refl
flatten-single (c ∷ text) = ap (λ t. c ∷ t) (flatten-single text)

lossy_chars-ascii : (text : List ℕ) → All IsPlain text → lossy_chars text ≡ map single text
lossy_chars-ascii text l =
    ap lossy_chars (sym (flatten-single text))
    ∙ lossy_chars-flatten (map single text) (All-IsChar text l)

-- What is shown of a gap is blank, and anything else is shown as it is and is not blank.
shown-gap : (c : ℕ) → c < 128 → is_gap c ≡ true → is_blank (shown c) ≡ true
unfolding shown is_gap is_blank is_whitespace is_replacement
shown-gap c l e = elim (Bool-cases (leb 32 c && ltb c 127)) [
  | inl g ↦ rw g (ground arith)
  | inr g ↦ rw g refl
]

shown-letter :
    (c : ℕ) → c < 128 → is_gap c ≡ false → (shown c ≡ single c) × (is_blank (shown c) ≡ false)
unfolding shown is_gap is_blank is_whitespace is_replacement
shown-letter c l e =
    let g : (leb 32 c && ltb c 127) ≡ true = ground arith in rw g (refl, ground arith)

attach-single :
    (word : List ℕ) (others : List (List ℕ))
    → attach (map single word) (map (λ w. map single w) others)
      ≡ map (λ w. map single w) (attach word others)
unfolding attach
attach-single [] others = refl
attach-single (c ∷ word) others = refl

-- The words of what is shown are those of the text.
first_word-shown :
    (text : List ℕ)
    → All IsPlain text
    → first_word is_blank (map shown text) ≡ (
      map single (first_word is_gap text).0,
      map (λ word. map single word) (first_word is_gap text).1,
    )
unfolding first_word
first_word-shown [] l = refl
first_word-shown (c ∷ text) l = elim (Bool-cases (is_gap c)) [
  | inl e ↦
      rw (e, shown-gap c l.0.0 e, first_word-shown text l.1)
        (ap (λ t. ([], t)) (attach-single (first_word is_gap text).0 (first_word is_gap text).1))
  | inr e ↦
      (let (kept, visible) = shown-letter c l.0.0 e in
        rw (e, visible, kept, first_word-shown text l.1) refl)
]

flatten-append-single :
    (word : List ℕ) (rest : List (List ℕ))
    → flatten (map single word ++ rest) ≡ word ++ flatten rest
flatten-append-single [] rest = refl
flatten-append-single (c ∷ word) rest = ap (λ t. c ∷ t) (flatten-append-single word rest)

each_behind-single :
    (found : List (List ℕ))
    → flatten (each_behind space (map (λ word. map single word) found)) ≡ each_behind 32 found
unfolding each_behind
each_behind-single [] = refl
each_behind-single (word ∷ found) =
    ap (λ t. 32 ∷ t)
      (flatten-append-single word (each_behind space (map (λ w. map single w) found))
        ∙ ap (λ t. word ++ t) (each_behind-single found))

join-single :
    (found : List (List ℕ))
    → flatten (join space (map (λ word. map single word) found)) ≡ join 32 found
unfolding join
join-single [] = refl
join-single (word ∷ found) =
    flatten-append-single word (each_behind space (map (λ w. map single w) found))
    ∙ ap (λ t. word ++ t) (each_behind-single found)

words-shown :
    (text : List ℕ)
    → All IsPlain text
    → words is_blank (map shown text) ≡ map (λ word. map single word) (words is_gap text)
unfolding words
words-shown text l =
    rw (first_word-shown text l)
      (attach-single (first_word is_gap text).0 (first_word is_gap text).1)

module _ (is_printable : List ℕ → Bool) (graphemes : List (List ℕ) → List (List (List ℕ)))
    (replace_all : List (List ℕ) → List (List ℕ)) (u : IsUnicode is_printable graphemes)
    (h : IsReplaceAll replace_all) where
  push_graphemes-shown :
      (text : List ℕ)
      → All IsPlain text
      → push_graphemes is_printable (map (λ c. single (single c)) text) ≡ map shown text
  unfolding push_graphemes push_grapheme shown
  push_graphemes-shown [] l = refl
  push_graphemes-shown (c ∷ text) l =
      rw (u.printable c l.0.0, push_graphemes-shown text l.1)
        (elim (Bool-cases (leb 32 c && ltb c 127)) [ inl e ↦ rw e refl | inr e ↦ rw e refl ])

  -- For `is_printable` and grapheme clusters as documented on ASCII, and a `replace_all` as
  -- documented: on ASCII text without carriage returns, the zeros that fill up a memo included,
  -- `memo_normalize` returns the longest runs of characters from 33 to 126, in order, with one
  -- space between two of them and none at the ends.
  pub memo_normalize-ascii :
      (text : List ℕ)
      → All IsPlain text
      → memo_normalize is_printable graphemes replace_all text ≡ join 32 (words is_gap text)
  memo_normalize-ascii text l =
      memo_normalize-words is_printable graphemes replace_all h text
      ∙ rw (lossy_chars-ascii text l, u.clusters text l)
          (rw (push_graphemes-shown text l)
            (rw (words-shown text l) (join-single (words is_gap text))))
