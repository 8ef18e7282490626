-- ===== src/Text/NonEmpty.antt =====
-- No character of a lossy text is empty.
use stacks_encoding_native_j.Prelude.{
  ℕ, ◌<◌, arith, List, [], ◌∷◌, ◌++◌, length, length-append, All, All-append, Option-cases, inl,
  inr,
}
use stacks_encoding_native_j.Text.Utf8.{Utf8State, start, inside, utf8_lead, utf8_next}
use stacks_encoding_native_j.Text.Lossy.{
  LossyState, enter, lossy_lead, lossy_step, lossy_end, lossy_chars_from, lossy_chars, fresh,
}

abbrev pub IsNonEmpty : List ℕ → Type 0
IsNonEmpty char = 0 < length char

enter-IsNonEmpty :
    (s : Utf8State) (char : List ℕ) → IsNonEmpty char → All IsNonEmpty (enter s char).0
unfolding enter
enter-IsNonEmpty start char h = (h, tt)
enter-IsNonEmpty (inside k lo hi) char h = tt

lossy_lead-IsNonEmpty : (b : ℕ) → All IsNonEmpty (lossy_lead b).0
unfolding lossy_lead
lossy_lead-IsNonEmpty b = elim (Option-cases (utf8_lead b)) [
  | inl e ↦ rw (e, lossy_lead) (omega arith, tt)
  | inr (s, e) ↦ rw (e, lossy_lead) (enter-IsNonEmpty s (b ∷ []) (omega arith))
]

lossy_step-IsNonEmpty :
    (s : Utf8State) (pending : List ℕ) (b : ℕ) → All IsNonEmpty (lossy_step s pending b).0
unfolding lossy_step
lossy_step-IsNonEmpty start pending b = lossy_lead-IsNonEmpty b
lossy_step-IsNonEmpty (inside k lo hi) pending b =
    elim (Option-cases (utf8_next (inside k lo hi) b)) [
      | inl e ↦ rw (e, lossy_step) (omega arith, lossy_lead-IsNonEmpty b)
      | inr (s, e) ↦
          rw (e, lossy_step)
            (enter-IsNonEmpty s (pending ++ (b ∷ []))
              (omega (arith, length-append pending (b ∷ []))))
    ]

lossy_end-IsNonEmpty : (s : Utf8State) → All IsNonEmpty (lossy_end s)
unfolding lossy_end
lossy_end-IsNonEmpty start = tt
lossy_end-IsNonEmpty (inside k lo hi) = (omega arith, tt)

lossy_chars_from-IsNonEmpty :
    (s : LossyState) (bytes : List ℕ) → All IsNonEmpty (lossy_chars_from s bytes)
unfolding lossy_chars_from
lossy_chars_from-IsNonEmpty s [] = lossy_end-IsNonEmpty s.state
lossy_chars_from-IsNonEmpty s (b ∷ bytes) =
    All-append IsNonEmpty _ _ (lossy_step-IsNonEmpty s.state s.pending b)
      (lossy_chars_from-IsNonEmpty (lossy_step s.state s.pending b).1 bytes)

pub lossy_chars-IsNonEmpty : (bytes : List ℕ) → All IsNonEmpty (lossy_chars bytes)
unfolding lossy_chars
lossy_chars-IsNonEmpty bytes = lossy_chars_from-IsNonEmpty fresh bytes
