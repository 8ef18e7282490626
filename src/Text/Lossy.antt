-- ===== src/Text/Lossy.antt =====
-- `String::from_utf8_lossy` of Rust's standard library, as the list of its characters, each in
-- UTF-8: what is not a character becomes U+FFFD, once for each longest prefix of a character.
use stacks_encoding_native_j.Prelude.{ℕ, List, [], ◌∷◌, ◌++◌, none, some}
use stacks_encoding_native_j.Text.Utf8.{Utf8State, start, inside, utf8_lead, utf8_next}

-- U+FFFD
abbrev pub replacement : List ℕ
replacement = 0xef ∷ 0xbf ∷ 0xbd ∷ []

-- The state between bytes, with the bytes of a character that is not complete.
pub record LossyState : Type 0 where
  pub state : Utf8State
  pub pending : List ℕ

abbrev pub fresh : LossyState
fresh = record { state = start; pending = [] }

-- The characters that a byte completes, and the state behind it.
unfoldable pub enter : Utf8State → List ℕ → List (List ℕ) × LossyState
enter start char = (char ∷ [], record { state = start; pending = [] })
enter (inside k lo hi) char = ([], record { state = inside k lo hi; pending = char })

-- A byte that starts a character, or is none.
unfoldable pub lossy_lead : ℕ → List (List ℕ) × LossyState
lossy_lead b = elim (utf8_lead b) [ none ↦ (replacement ∷ [], fresh) | some s ↦ enter s (b ∷ []) ]

-- A byte behind a character's first bytes: one that does not go on starts anew.
unfoldable pub lossy_step : Utf8State → List ℕ → ℕ → List (List ℕ) × LossyState
lossy_step start pending b = lossy_lead b
lossy_step (inside k lo hi) pending b = elim (utf8_next (inside k lo hi) b) [
  | none ↦ (let (chars, next) = lossy_lead b in (replacement ∷ chars, next))
  | some s ↦ enter s (pending ++ (b ∷ []))
]

unfoldable pub lossy_end : Utf8State → List (List ℕ)
lossy_end start = []
lossy_end (inside k lo hi) = replacement ∷ []

unfoldable pub lossy_chars_from : LossyState → List ℕ → List (List ℕ)
lossy_chars_from s [] = lossy_end s.state
lossy_chars_from s (b ∷ bs) =
    let (chars, next) = lossy_step s.state s.pending b in chars ++ lossy_chars_from next bs

unfoldable pub lossy_chars : List ℕ → List (List ℕ)
lossy_chars bs = lossy_chars_from fresh bs
