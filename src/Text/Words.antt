-- ===== src/Text/Words.antt =====
-- The words of a list: its longest runs of entries that are not blank, and lists joined by a
-- separator.
use stacks_encoding_native_j.Prelude.{List, [], ◌∷◌, ◌++◌, Bool, if◌then◌else◌}

module _ {ℓ} {A : Type ℓ} where
  -- A word that has just ended, if there is one, before the others.
  unfoldable pub attach : List A → List (List A) → List (List A)
  attach [] others = others
  attach (x ∷ word) others = (x ∷ word) ∷ others

  -- The word at the start of a list, which may be empty, and the words behind it.
  unfoldable pub first_word : (A → Bool) → List A → List A × List (List A)
  first_word is_blank [] = ([], [])
  first_word is_blank (x ∷ xs) =
      let (word, others) = first_word is_blank xs in
      if is_blank x then ([], attach word others) else (x ∷ word, others)

  unfoldable pub words : (A → Bool) → List A → List (List A)
  words is_blank xs = let (word, others) = first_word is_blank xs in attach word others

  unfoldable pub each_behind : A → List (List A) → List A
  each_behind separator [] = []
  each_behind separator (word ∷ others) = (separator ∷ word) ++ each_behind separator others

  unfoldable pub join : A → List (List A) → List A
  join separator [] = []
  join separator (word ∷ others) = word ++ each_behind separator others
