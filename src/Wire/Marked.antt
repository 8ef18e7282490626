-- ===== src/Wire/Marked.antt =====
-- Laws of the readers that take the slice from where they started, that repeat, and that go back.
use stacks_encoding_native_j.Prelude.{◌-◌, refl, arith, length-append, take-append, drop-append}
use stacks_encoding_native_j.Wire.Reader.{◌>>◌, set_position, read_be}
use stacks_encoding_native_j.Wire.Laws.{Reads-byte}
use stacks_encoding_native_j.Prelude.{
  ℕ, List, [], ◌∷◌, ◌++◌, append_assoc, append-nil, length, map, flatten, All, ◌≡◌, subst, ok,
}
use stacks_encoding_native_j.Wire.Cursor.{Cursor, position}
use stacks_encoding_native_j.Wire.Reader.{Reader, ◌>>=◌, get_position, slice_from, read_vec}
use stacks_encoding_native_j.Wire.Laws.{Reads, Reads-map, Reads-pure, Reads-bind, slice_from-at, at}

-- Behind `seen`, a reader that knows where `seen` starts takes just `xs` and returns `a`.
pub record ReadsBehind {ℓ} {A : Type ℓ} (seen : List ℕ) (p : ℕ → Reader A) (xs : List ℕ) (a : A)
    : Type ℓ where
  pub from :
      (pre post : List ℕ)
      → p (length pre) (at (pre ++ seen) (xs ++ post)) ≡ ok (a, at (pre ++ (seen ++ xs)) post)

pub ReadsBehind-start {ℓ} :
    {A : Type ℓ} (p : ℕ → Reader A) (xs : List ℕ) (a : A)
    → ReadsBehind [] p xs a
    → Reads (get_position >>= p) xs a
unfolding ◌>>=◌ position
ReadsBehind-start p xs a h pre post =
    subst (λ t. p (length pre) (at t (xs ++ post)) ≡ ok (a, at (pre ++ xs) post)) (append-nil pre)
      (h.from pre post)

pub ReadsBehind-bind {ℓ κ} :
    {A : Type ℓ} {B : Type κ} (seen : List ℕ) (q : Reader A) (f : ℕ → A → Reader B) (xs ys : List ℕ)
    (a : A) (b : B)
    → Reads q xs a
    → ReadsBehind (seen ++ xs) (λ n. f n a) ys b
    → ReadsBehind seen (λ n. q >>= f n) (xs ++ ys) b
unfolding ◌>>=◌
ReadsBehind-bind seen q f xs ys a b h k = record {
  from = λ pre post.
      rw
        (
          append_assoc xs ys post,
          h (pre ++ seen) (ys ++ post),
          append_assoc pre seen xs,
          ← append_assoc seen xs ys,
        )
        (k.from pre post);
}

pub ReadsBehind-slice {ℓ} :
    {B : Type ℓ} (seen : List ℕ) (f : List ℕ → Reader B) (ys : List ℕ) (b : B)
    → Reads (f seen) ys b
    → ReadsBehind seen (λ n. slice_from n >>= f) ys b
unfolding ◌>>=◌
ReadsBehind-slice seen f ys b h = record {
  from = λ pre post.
      rw (slice_from-at pre seen (ys ++ post), ← append_assoc pre seen ys) (h (pre ++ seen) post);
}

-- The last read before the slice is taken.
pub ReadsBehind-end {ℓ κ} :
    {A : Type ℓ} {B : Type κ} (seen : List ℕ) (q : Reader A) (f : A → List ℕ → Reader B)
    (xs : List ℕ) (a : A) (b : B)
    → Reads q xs a
    → ((c : Cursor) → f a (seen ++ xs) c ≡ ok (b, c))
    → ReadsBehind seen (λ n. q >>= λ x. slice_from n >>= f x) xs b
unfolding ◌>>=◌
ReadsBehind-end seen q f xs a b h k = record {
  from = λ pre post.
      rw (h (pre ++ seen) post, append_assoc pre seen xs, slice_from-at pre (seen ++ xs) post)
        (k (at (pre ++ (seen ++ xs)) post));
}

-- Values that are read one after the other.
pub Reads-vec {ℓ κ} :
    {A : Type ℓ} (P : A → Type κ) (read : Reader A) (bytes : A → List ℕ)
    → ((a : A) → P a → Reads read (bytes a) a)
    → (xs : List A) → All P xs
    → Reads (read_vec read (length xs)) (flatten (map bytes xs)) xs
unfolding read_vec
Reads-vec P read bytes h [] l = Reads-pure []
Reads-vec P read bytes h (x ∷ xs) l =
    Reads-bind _ _ _ _ _ _ (h x l.0) (Reads-map _ _ _ _ (Reads-vec P read bytes h xs l.1))

-- Behind its first byte, the position goes back to where that byte is.
set_position-back :
    (t : ℕ) (pre rest : List ℕ)
    → set_position (length (pre ++ (t ∷ [])) - 1) (at (pre ++ (t ∷ [])) rest)
      ≡ ok (tt, at pre (t ∷ rest))
unfolding set_position
set_position-back t pre rest =
    let back : length (pre ++ (t ∷ [])) - 1 ≡ length pre =
      omega (arith, length-append pre (t ∷ [])) in
    rw
      (back, append_assoc pre (t ∷ []) rest, take-append pre (t ∷ rest), drop-append pre (t ∷ rest))
      refl

pub Reads-peek {ℓ} :
    {A : Type ℓ} (f : ℕ → Reader A) (t : ℕ) (rest : List ℕ) (a : A)
    → Reads (f t) (t ∷ rest) a
    → Reads (read_be 1 >>= λ u. get_position >>= λ n. set_position (n - 1) >> f u) (t ∷ rest) a
unfolding ◌>>=◌ ◌>>◌ position
Reads-peek f t rest a h pre post =
    rw (Reads-byte t pre (rest ++ post), set_position-back t pre (rest ++ post)) (h pre post)
