-- ===== src/Wire/Frames.antt =====
-- Readers that do not panic, and take what they consume from the front of what is left.
use stacks_encoding_native_j.Prelude.{ℕ, zero, suc, ◌≤◌, ◌≡◌, ◌≢◌, refl, sym, ap, ◌∙◌, subst, arith}
use stacks_encoding_native_j.Prelude.{List, [], ◌∷◌, ◌++◌, length, take, append-nil, append_assoc}
use stacks_encoding_native_j.Prelude.{
  length-append, take-append-drop, le→leb, leb, Bool, true, false,
}
use stacks_encoding_native_j.Prelude.{
  if◌then◌else◌, Option, some, none, Outcome, ok, err, panic, hangs, map_err, inl, inr, Bool-cases,
}
use stacks_encoding_native_j.Prelude.Monad
use stacks_encoding_native_j.Wire.Cursor.{Cursor, position}
use stacks_encoding_native_j.Wire.Error.{DeserializeError, from_str}
use stacks_encoding_native_j.Wire.Reader.{
  Reader, pure, ◌>>=◌, ◌>>◌, fail, fail_str, converted, ok_or, ok_or_str, ensure, ensure_str,
  get_position, read_exact, slice_from, read_be, read_vec,
}

-- `c'` comes from `c` by consuming some of what is left.
abbrev pub Advances : Cursor → Cursor → Type 0
Advances c c' = (xs : List ℕ) × (c'.consumed ≡ c.consumed ++ xs) × (c.rest ≡ xs ++ c'.rest)

abbrev pub Safe {ℓ} : {A : Type ℓ} → Cursor → Outcome DeserializeError (A × Cursor) → Type 0
Safe c (ok (a, c')) = Advances c c'
Safe c (err e) = Unit
Safe c panic = ⊥
Safe c hangs = Unit

-- The same at every cursor whose position is `n` or more.
pub record Frames {ℓ} (n : ℕ) {A : Type ℓ} (p : Reader A) : Type 0 where
  pub at_every : (c : Cursor) → n ≤ length c.consumed → Safe c (p c)

pub Advances-refl : (c : Cursor) → Advances c c
Advances-refl c = ([], sym (append-nil c.consumed), refl)

pub Advances-trans : (c d e : Cursor) → Advances c d → Advances d e → Advances c e
Advances-trans c d e (xs, p, q) (ys, r, s) = (
  xs ++ ys,
  r ∙ ap (λ z. z ++ ys) p ∙ append_assoc c.consumed xs ys,
  q ∙ ap (λ z. xs ++ z) s ∙ sym (append_assoc xs ys e.rest),
)

pub Advances-position :
    (n : ℕ) (c d : Cursor) → Advances c d → n ≤ length c.consumed → n ≤ length d.consumed
Advances-position n c d (xs, p, q) h = omega (arith, ap length p, length-append c.consumed xs)

Safe-after {ℓ} :
    {A : Type ℓ} (c d : Cursor) (o : Outcome DeserializeError (A × Cursor))
    → Advances c d
    → Safe d o
    → Safe c o
Safe-after c d (ok (a, e)) h k = Advances-trans c d e h k
Safe-after c d (err e) h k = tt
Safe-after c d panic h k = k
Safe-after c d hangs h k = tt

Safe-converted {ℓ} :
    (A : Type ℓ) (c : Cursor) (o : Option DeserializeError) → Safe c (converted {A = A × Cursor} o)
Safe-converted A c (some e) = tt
Safe-converted A c none = tt

module _ {ℓ} (n : ℕ) {A : Type ℓ} where
  pub Frames-pure : (a : A) → Frames n (pure a)
  Frames-pure a = record { at_every = λ c h. Advances-refl c }

  pub Frames-fail : (e : DeserializeError) → Frames n (fail {A = A} e)
  Frames-fail e = record { at_every = λ c h. tt }

  pub Frames-hangs : Frames n {A = A} (λ c. hangs)
  Frames-hangs = record { at_every = λ c h. tt }

  pub Frames-fail_str : Frames n (fail_str {A = A})
  Frames-fail_str = record { at_every = λ c h. Safe-converted A c (from_str 1) }

  pub Frames-ok_or : (o : Option A) (e : DeserializeError) → Frames n (ok_or o e)
  Frames-ok_or (some a) e = Frames-pure a
  Frames-ok_or none e = Frames-fail e

  pub Frames-ok_or_str : (o : Option A) → Frames n (ok_or_str o)
  Frames-ok_or_str (some a) = Frames-pure a
  Frames-ok_or_str none = Frames-fail_str

  pub Frames-if :
      (t : Bool) (p q : Reader A) → Frames n p → Frames n q → Frames n (if t then p else q)
  Frames-if true p q h k = h
  Frames-if false p q h k = k

pub Frames-ensure : (n : ℕ) (t : Bool) (e : DeserializeError) → Frames n (ensure t e)
Frames-ensure n true e = Frames-pure n tt
Frames-ensure n false e = Frames-fail n e

pub Frames-ensure_str : (n : ℕ) (t : Bool) → Frames n (ensure_str t)
Frames-ensure_str n true = Frames-pure n tt
Frames-ensure_str n false = Frames-fail_str n

module _ {ℓ κ} (n : ℕ) {A : Type ℓ} {B : Type κ} where
  Safe-bind :
      (c : Cursor) (o : Outcome DeserializeError (A × Cursor)) (f : A → Reader B)
      → n ≤ length c.consumed
      → Safe c o
      → ((a : A) → Frames n (f a))
      → Safe c (Monad.◌>>=◌ o λ (a, d). f a d)
  Safe-bind c (ok (a, d)) f l h k =
      Safe-after c d (f a d) h ((k a).at_every d (Advances-position n c d h l))
  Safe-bind c (err e) f l h k = tt
  Safe-bind c panic f l h k = h
  Safe-bind c hangs f l h k = tt

  pub Frames-bind :
      (p : Reader A) (f : A → Reader B)
      → Frames n p
      → ((a : A) → Frames n (f a))
      → Frames n (p >>= f)
  unfolding ◌>>=◌
  Frames-bind p f h k = record { at_every = λ c l. Safe-bind c (p c) f l (h.at_every c l) k }

  pub Frames-then : (p : Reader A) (q : Reader B) → Frames n p → Frames n q → Frames n (p >> q)
  unfolding ◌>>◌ ◌>>=◌
  Frames-then p q h k = Frames-bind p (λ a. q) h λ a. k

-- Behind a position that is kept for a slice.
pub Frames-position {ℓ} :
    (n : ℕ) {A : Type ℓ} (f : ℕ → Reader A)
    → ((m : ℕ) → Frames m (f m))
    → Frames n (get_position >>= f)
unfolding ◌>>=◌ position
Frames-position n f k = record {
  at_every = λ c l. (k (length c.consumed)).at_every c (omega arith);
}

pub Frames-exact : (n k : ℕ) → Frames n (read_exact k)
unfolding read_exact
Frames-exact n k = record {
  at_every = λ c l. elim (Bool-cases (leb k (length c.rest))) [
    | inl e ↦ rw e (take k c.rest, refl, sym (take-append-drop k c.rest))
    | inr e ↦ rw e tt
  ];
}

pub Frames-slice : (n : ℕ) → Frames n (slice_from n)
unfolding slice_from
Frames-slice n = record { at_every = λ c l. rw (le→leb n (length c.consumed) l) (Advances-refl c) }

pub Frames-be : (n k : ℕ) → Frames n (read_be k)
unfolding read_be
Frames-be n k = Frames-bind n _ _ (Frames-exact n k) λ bytes. Frames-pure n _

pub Frames-vec {ℓ} :
    (n : ℕ) {A : Type ℓ} (p : Reader A) (k : ℕ) → Frames n p → Frames n (read_vec p k)
unfolding read_vec
Frames-vec n p zero h = Frames-pure n []
Frames-vec n p (suc k) h =
    Frames-bind n _ _ h λ x. Frames-bind n _ _ (Frames-vec n p k h) λ xs. Frames-pure n (x ∷ xs)

Safe-map_err {ℓ} :
    {A : Type ℓ} (c : Cursor) (f : DeserializeError → DeserializeError)
    (o : Outcome DeserializeError (A × Cursor))
    → Safe c o
    → Safe c (map_err f o)
Safe-map_err c f (ok x) h = h
Safe-map_err c f (err e) h = tt
Safe-map_err c f panic h = h
Safe-map_err c f hangs h = tt

pub Frames-map_err {ℓ} :
    (n : ℕ) {A : Type ℓ} (f : DeserializeError → DeserializeError) (p : Reader A)
    → Frames n p
    → Frames n (λ c. map_err f (p c))
Frames-map_err n f p h = record { at_every = λ c l. Safe-map_err c f (p c) (h.at_every c l) }

-- What this says of one run that returned a value.
Safe-eq {ℓ} :
    {A : Type ℓ} (c c' : Cursor) (a : A) (o : Outcome DeserializeError (A × Cursor))
    → o ≡ ok (a, c')
    → Safe c o
    → Advances c c'
Safe-eq c c' a o e h = subst (Safe c) e h

pub Frames-Advances {ℓ} :
    {A : Type ℓ} (p : Reader A) (c c' : Cursor) (a : A)
    → Frames 0 p
    → p c ≡ ok (a, c')
    → Advances c c'
Frames-Advances p c c' a h e = Safe-eq c c' a (p c) e (h.at_every c (omega arith))

pub Frames-no_panic {ℓ} : {A : Type ℓ} (p : Reader A) (c : Cursor) → Frames 0 p → p c ≢ panic
Frames-no_panic p c h e = subst (Safe c) e (h.at_every c (omega arith))
