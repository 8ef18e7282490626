-- ===== src/Text/Chars.antt =====
-- Lossy decoding, as clarity_value/types.rs uses it, of text that is made of characters.
use stacks_encoding_native_j.Prelude.{
  ℕ, List, [], ◌∷◌, ◌++◌, append_assoc, some, ◌≡◌, refl, sym, ap, ◌∙◌, All, flatten,
}
use stacks_encoding_native_j.Text.Utf8.{Utf8State, start, inside, utf8_lead, utf8_next}
use stacks_encoding_native_j.Text.Lossy.{
  LossyState, lossy_step, lossy_lead, enter, lossy_chars_from, lossy_chars, fresh, lossy_end,
}

-- The bytes go from a state inside a character, or from its start, to just behind it.
pub data Completes : Utf8State → List ℕ → Type 0 where
  last : {s : Utf8State} (b : ℕ) → utf8_next s b ≡ some start → Completes s (b ∷ [])
  more :
      {s : Utf8State} {bs : List ℕ} (b k lo hi : ℕ)
      → utf8_next s b ≡ some (inside k lo hi)
      → Completes (inside k lo hi) bs
      → Completes s (b ∷ bs)

-- One character in UTF-8.
abbrev pub IsChar : List ℕ → Type 0
IsChar = Completes start

-- The pending bytes of a state are none between characters.
abbrev Fits : Utf8State → List ℕ → Type 0
Fits start pending = pending ≡ []
Fits (inside k lo hi) pending = Unit

utf8_next-start : (b : ℕ) → utf8_next start b ≡ utf8_lead b
unfolding utf8_next
utf8_next-start b = refl

step_last :
    (s : Utf8State) (pending : List ℕ) (b : ℕ)
    → Fits s pending
    → utf8_next s b ≡ some start
    → lossy_step s pending b ≡ ((pending ++ (b ∷ [])) ∷ [], fresh)
unfolding lossy_step lossy_lead enter
step_last start pending b h e =
    rw (h, lossy_step, lossy_lead) (rw (sym (utf8_next-start b) ∙ e, lossy_lead) refl)
step_last (inside k lo hi) pending b h e = rw (e, lossy_step) refl

step_more :
    (s : Utf8State) (pending : List ℕ) (b k lo hi : ℕ)
    → Fits s pending
    → utf8_next s b ≡ some (inside k lo hi)
    → lossy_step s pending b
      ≡ ([], record { state = inside k lo hi; pending = pending ++ (b ∷ []) })
unfolding lossy_step lossy_lead enter
step_more start pending b k lo hi h e =
    rw (h, lossy_step, lossy_lead) (rw (sym (utf8_next-start b) ∙ e, lossy_lead) refl)
step_more (inside k' lo' hi') pending b k lo hi h e = rw (e, lossy_step) refl

abbrev lossy : Utf8State → List ℕ → LossyState
lossy s pending = record { state = s; pending = pending }

lossy_chars_from-Completes :
    {s : Utf8State} {bs : List ℕ} (pending rest : List ℕ)
    → Fits s pending
    → Completes s bs
    → lossy_chars_from (lossy s pending) (bs ++ rest) ≡ (pending ++ bs) ∷ lossy_chars rest
unfolding lossy_chars_from lossy_chars
lossy_chars_from-Completes {s} pending rest h (last b e) = rw (step_last s pending b h e) refl
lossy_chars_from-Completes {s} pending rest h (more {bs} b k lo hi e c) =
    rw (step_more s pending b k lo hi h e) (
      lossy_chars_from-Completes (pending ++ (b ∷ [])) rest tt c
      ∙ ap (λ t. t ∷ lossy_chars rest) (append_assoc pending (b ∷ []) bs))

-- The characters of a text of characters are those characters.
pub lossy_chars-flatten : (cs : List (List ℕ)) → All IsChar cs → lossy_chars (flatten cs) ≡ cs
unfolding lossy_chars
lossy_chars-flatten [] h = unfold lossy_chars_from lossy_end in refl
lossy_chars-flatten (c ∷ cs) h =
    lossy_chars_from-Completes [] (flatten cs) refl h.0
    ∙ ap (λ t. c ∷ t) (lossy_chars-flatten cs h.1)
