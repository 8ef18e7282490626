-- ===== src/Wire/Taken.antt =====
-- What a read took, as the bytes between two cursors.
use stacks_encoding_native_j.Prelude.{
  ℕ, ◌+◌, ◌*◌, ◌/◌, ◌%◌, ◌^◌, ◌<◌, ◌≡◌, refl, sym, ap, ◌∙◌, arith, subst, List, [], ◌∷◌, ◌++◌,
  length, append_assoc, take, drop, take-append-drop, length-take, All, Bool-cases, leb, leb→le,
  inl, inr, Outcome, ok,
}
use stacks_encoding_native_j.Prelude.{◌≤◌}
use stacks_encoding_native_j.Wire.Cursor.{Cursor}
use stacks_encoding_native_j.Wire.Error.{DeserializeError}
use stacks_encoding_native_j.Wire.Laws.{to_be}
use stacks_encoding_native_j.Wire.Reader.{read_exact, from_be_bytes, from_be_bytes_acc}

-- Between the two cursors lie the bytes.
abbrev pub Between : Cursor → List ℕ → Cursor → Type 0
Between c xs c' = (c'.consumed ≡ c.consumed ++ xs) × (c.rest ≡ xs ++ c'.rest)

pub Between-append :
    (c d e : Cursor) (xs ys : List ℕ) → Between c xs d → Between d ys e → Between c (xs ++ ys) e
Between-append c d e xs ys (p, q) (r, s) = (
  r ∙ ap (λ z. z ++ ys) p ∙ append_assoc c.consumed xs ys,
  q ∙ ap (λ z. xs ++ z) s ∙ sym (append_assoc xs ys e.rest),
)

-- The four bytes of a number below 2 ^ 32 are its bytes, most significant first.
pub to_be-from_be_bytes :
    (bytes : List ℕ)
    → length bytes ≡ 4
    → All (λ x. x < 256) bytes
    → to_be 4 (from_be_bytes bytes % 2 ^ 32) ≡ bytes
unfolding to_be from_be_bytes from_be_bytes_acc
to_be-from_be_bytes [] l h = absurd (omega arith)
to_be-from_be_bytes (p ∷ []) l h = absurd (omega arith)
to_be-from_be_bytes (p ∷ q ∷ []) l h = absurd (omega arith)
to_be-from_be_bytes (p ∷ q ∷ r ∷ []) l h = absurd (omega arith)
to_be-from_be_bytes (p ∷ q ∷ r ∷ s ∷ x ∷ bytes) l h = absurd (omega arith)
to_be-from_be_bytes (p ∷ q ∷ r ∷ s ∷ []) l (hp, (hq, (hr, (hs, _)))) =
    let v = (((0 * 256 + p) * 256 + q) * 256 + r) * 256 + s in
    let a : v % 2 ^ 32 / 256 / 256 / 256 % 256 ≡ p = omega arith in
    let b : v % 2 ^ 32 / 256 / 256 % 256 ≡ q = omega arith in
    let c : v % 2 ^ 32 / 256 % 256 ≡ r = omega arith in
    let d : v % 2 ^ 32 % 256 ≡ s = omega arith in rw (a, b, c, d) refl

abbrev pub number_read : ℕ → Cursor → Outcome DeserializeError (ℕ × Cursor)
number_read n c = ok (n, c)

pub number_read-eq :
    {m n : ℕ} {c d : Cursor} → number_read m c ≡ number_read n d → (m ≡ n) × (c ≡ d)
number_read-eq h = (cc h, cc h)

-- What `read_exact` took.
pub record Exactly (n : ℕ) (c d : Cursor) (bytes : List ℕ) : Type 0 where
  pub between : Between c bytes d
  pub amount : length bytes ≡ n
  pub from_rest : bytes ≡ take n c.rest

Exactly-take :
    (n : ℕ) (c : Cursor)
    → n ≤ length c.rest
    → Exactly n c
        (record { consumed = c.consumed ++ take n c.rest; rest = drop n c.rest })
        (take n c.rest)
Exactly-take n c h = record {
  between = (refl, sym (take-append-drop n c.rest));
  amount = length-take n c.rest h;
  from_rest = refl;
}

abbrev bytes_read : List ℕ → Cursor → Outcome DeserializeError (List ℕ × Cursor)
bytes_read bytes c = ok (bytes, c)

bytes_read-eq :
    {xs ys : List ℕ} {c d : Cursor} → bytes_read xs c ≡ bytes_read ys d → (xs ≡ ys) × (c ≡ d)
bytes_read-eq h = (cc h, cc h)

pub read_exact-eq :
    (n : ℕ) (c d : Cursor) (bytes : List ℕ) → read_exact n c ≡ ok (bytes, d) → Exactly n c d bytes
unfolding read_exact
read_exact-eq n c d bytes = elim (Bool-cases (leb n (length c.rest))) [
  | inl e ↦ rw e (λ h.
      let (same_bytes, same_cursor) = bytes_read-eq h in
      subst (Exactly n c d) same_bytes (
        subst (λ z. Exactly n c z (take n c.rest)) same_cursor
          (Exactly-take n c (leb→le n (length c.rest) e))))
  | inr e ↦ rw e (λ h. absurd (cc h))
]
