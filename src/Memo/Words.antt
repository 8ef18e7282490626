-- ===== src/Memo/Words.antt =====
-- What src/memo/mod.rs leaves of a text: its words, with one space between two of them.
use stacks_encoding_native_j.Prelude.{
  ℕ, List, [], ◌∷◌, ◌++◌, append_assoc, Bool, true, false, ◌&&◌, ◌||◌, ◌==◌, if◌then◌else◌,
  Bool-cases, inl, inr, All, ◌≡◌, refl, sym, ap, ◌∙◌, flatten, arith, All-append,
}
use stacks_encoding_native_j.Text.Lossy.{lossy_chars}
use stacks_encoding_native_j.Text.Trim.{is_whitespace, null, trim_start, trim_end, trim}
use stacks_encoding_native_j.Text.Words.{attach, first_word, words, each_behind, join}
use stacks_encoding_native_j.Memo.{space, push_graphemes, memo_normalize}

-- U+FFFD
unfoldable pub is_replacement : List ℕ → Bool
is_replacement (a ∷ b ∷ c ∷ []) = a == 0xef && b == 0xbf && c == 0xbd
is_replacement _ = false

-- What the class in the regular expression matches.
unfoldable pub is_blank : List ℕ → Bool
is_blank c = is_replacement c || is_whitespace c

abbrev pub starts_blank : List (List ℕ) → Bool
starts_blank [] = false
starts_blank (c ∷ chars) = is_blank c

-- What the crate regex documents of `replace_all`, for the expression and the replacement in the
-- source: each longest run of matching characters becomes one space.
pub record IsReplaceAll (replace_all : List (List ℕ) → List (List ℕ)) : Type 0 where
  pub replace_end : replace_all [] ≡ []
  pub replace_other :
      (c : List ℕ) (chars : List (List ℕ))
      → is_blank c ≡ false
      → replace_all (c ∷ chars) ≡ c ∷ replace_all chars
  pub replace_run :
      (c : List ℕ) (run rest : List (List ℕ))
      → All (λ x. is_blank x ≡ true) (c ∷ run)
      → starts_blank rest ≡ false
      → replace_all ((c ∷ run) ++ rest) ≡ space ∷ replace_all rest

-- The same as one pass that knows whether it is behind a blank.
unfoldable pub collapse : Bool → List (List ℕ) → List (List ℕ)
collapse behind [] = []
collapse behind (c ∷ chars) =
    let in_run = collapse true chars in
    let in_word = collapse false chars in
    if is_blank c then (if behind then in_run else space ∷ in_run) else c ∷ in_word

-- A blank is never kept, and space is one.
blank-whitespace : (c : List ℕ) → is_blank c ≡ false → is_whitespace c ≡ false
unfolding is_blank
blank-whitespace c h = ground arith

-- The words that `first_word` gives behind the first are not empty.
abbrev Occupied : List (List (List ℕ)) → Type 0
Occupied = All λ word. null word ≡ false

attach-Occupied :
    (word : List (List ℕ)) (others : List (List (List ℕ)))
    → Occupied others
    → Occupied (attach word others)
unfolding attach
attach-Occupied [] others h = h
attach-Occupied (c ∷ word) others h = (refl, h)

first_word-Occupied : (chars : List (List ℕ)) → Occupied (first_word is_blank chars).1
unfolding first_word
first_word-Occupied [] = tt
first_word-Occupied (c ∷ chars) =
    let rest = first_word-Occupied chars in
    elim (Bool-cases (is_blank c)) [
      | inl e ↦ rw e (attach-Occupied (first_word is_blank chars).0 _ rest)
      | inr e ↦ rw e rest
    ]

module _ (replace_all : List (List ℕ) → List (List ℕ)) (h : IsReplaceAll replace_all) where
  -- At the start or behind a character that is kept, and behind a run of blanks.
  collapse_lem :
      (chars : List (List ℕ))
      → (replace_all chars ≡ collapse false chars)
        × ((b : List ℕ) (run : List (List ℕ))
            → All (λ x. is_blank x ≡ true) (b ∷ run)
            → replace_all ((b ∷ run) ++ chars) ≡ space ∷ collapse true chars)
  unfolding collapse
  collapse_lem [] =
      (h.replace_end, λ b run l. h.replace_run b run [] l refl ∙ ap (λ t. space ∷ t) h.replace_end)
  collapse_lem (c ∷ chars) =
      let (plain, behind) = collapse_lem chars in
      elim (Bool-cases (is_blank c)) [
        | inl e ↦ (
          rw e (behind c [] (e, tt)),
          λ b run l. rw e (
              ap replace_all (sym (append_assoc (b ∷ run) (c ∷ []) chars))
              ∙ behind b (run ++ (c ∷ [])) (l.0, All-append _ run (c ∷ []) l.1 (e, tt))),
        )
        | inr e ↦
            (let kept = h.replace_other c chars e ∙ ap (λ t. c ∷ t) plain in
              (
                rw e kept,
                λ b run l. rw e (h.replace_run b run (c ∷ chars) l e ∙ ap (λ t. space ∷ t) kept),
              ))
      ]

-- At the start, only the blanks there are missing.
trim_start-behind : (chars : List (List ℕ)) → trim_start (collapse true chars) ≡ collapse true chars
unfolding trim_start collapse
trim_start-behind [] = refl
trim_start-behind (c ∷ chars) = elim (Bool-cases (is_blank c)) [
  | inl e ↦ rw e (trim_start-behind chars)
  | inr e ↦ rw (e, blank-whitespace c e) refl
]

trim_start-collapse :
    (chars : List (List ℕ)) → trim_start (collapse false chars) ≡ collapse true chars
unfolding trim_start collapse is_whitespace
trim_start-collapse [] = refl
trim_start-collapse (c ∷ chars) = elim (Bool-cases (is_blank c)) [
  | inl e ↦ rw e (trim_start-behind chars)
  | inr e ↦ rw (e, blank-whitespace c e) refl
]

-- A space that is not at the end stands between words.
space_before :
    (found : List (List (List ℕ)))
    → Occupied found
    → (if null (join space found) && is_whitespace space then [] else space ∷ join space found)
      ≡ each_behind space found
unfolding join each_behind is_whitespace
space_before [] l = refl
space_before ([] ∷ found) l = ground (arith, l.0)
space_before ((c ∷ word) ∷ found) l = refl

trim_end-cons :
    (c : List ℕ) (chars : List (List ℕ))
    → is_whitespace c ≡ false
    → trim_end (c ∷ chars) ≡ c ∷ trim_end chars
unfolding trim_end
trim_end-cons c chars h = elim (Bool-cases (null (trim_end chars))) [
  | inl e ↦ rw (e, h) refl
  | inr e ↦ rw e refl
]

-- At the end, only the blanks there are missing: in a word, and behind a blank.
trim_end-collapse :
    (chars : List (List ℕ))
    → (trim_end (collapse false chars)
        ≡ (first_word is_blank chars).0 ++ each_behind space (first_word is_blank chars).1)
      × (trim_end (collapse true chars) ≡ join space (words is_blank chars))
unfolding trim_end collapse first_word words join each_behind attach
trim_end-collapse [] = (refl, refl)
trim_end-collapse (c ∷ chars) =
    let (in_word, behind) = trim_end-collapse chars in
    let (word, others) = first_word is_blank chars in
    elim (Bool-cases (is_blank c)) [
      | inl e ↦ (
        rw (e, behind)
            (space_before (attach word others)
              (attach-Occupied word others (first_word-Occupied chars))),
        rw e behind,
      )
      | inr e ↦
          (let kept =
              trim_end-cons c (collapse false chars) (blank-whitespace c e)
              ∙ ap (λ t. c ∷ t) in_word in
            (rw e kept, rw e kept))
    ]

module _ (is_printable : List ℕ → Bool) (graphemes : List (List ℕ) → List (List (List ℕ)))
    (replace_all : List (List ℕ) → List (List ℕ)) (h : IsReplaceAll replace_all) where
  -- For a `replace_all` as documented, and any division into clusters and choice of printable
  -- characters: `memo_normalize` returns the words of the characters that its loop pushes, that is
  -- the longest runs without white space and U+FFFD, in order, with one space between two of them
  -- and none at the ends.
  pub memo_normalize-words :
      (input : List ℕ)
      → memo_normalize is_printable graphemes replace_all input
        ≡ flatten (
            join space
              (words is_blank (push_graphemes is_printable (graphemes (lossy_chars input)))))
  unfolding memo_normalize trim
  memo_normalize-words input =
      let result_str = push_graphemes is_printable (graphemes (lossy_chars input)) in
      ap (λ t. flatten (trim_end (trim_start t))) (collapse_lem replace_all h result_str).0
      ∙ ap (λ t. flatten (trim_end t)) (trim_start-collapse result_str)
      ∙ ap flatten (trim_end-collapse result_str).1
