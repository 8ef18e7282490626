-- ===== src/Wire/Consumes.antt =====
-- Readers that take at least one byte whenever they return.
use stacks_encoding_native_j.Prelude.{
  ℕ, ◌≤◌, ◌<◌, ◌≡◌, refl, sym, ap, arith, length, length-append, Bool, true, false, leb, leb→le,
  take, drop, take-append-drop, length-take, Bool-cases, inl, inr, Outcome, ok, err, panic, hangs,
  subst,
}
use stacks_encoding_native_j.Prelude.Monad
use stacks_encoding_native_j.Wire.Cursor.{Cursor, position}
use stacks_encoding_native_j.Wire.Error.{DeserializeError}
use stacks_encoding_native_j.Wire.Reader.{
  Reader, ◌>>=◌, ◌>>◌, ensure, get_position, read_exact, read_be,
}
use stacks_encoding_native_j.Wire.Frames.{
  Frames, Safe, Advances, Advances-trans, Frames-pure, Advances-position,
}

abbrev pub Progress {ℓ} : {A : Type ℓ} → Cursor → Outcome DeserializeError (A × Cursor) → Type 0
Progress c (ok (a, c')) = Advances c c' × (length c'.rest < length c.rest)
Progress c (err e) = Unit
Progress c panic = ⊥
Progress c hangs = Unit

pub record Consumes {ℓ} (n : ℕ) {A : Type ℓ} (p : Reader A) : Type 0 where
  pub at_every : (c : Cursor) → n ≤ length c.consumed → Progress c (p c)

Advances-rest : (c d : Cursor) → Advances c d → length d.rest ≤ length c.rest
Advances-rest c d (xs, p, q) = omega (arith, ap length q, length-append xs d.rest)

Progress-after {ℓ} :
    {A : Type ℓ} (c d : Cursor) (o : Outcome DeserializeError (A × Cursor))
    → Advances c d
    → length d.rest < length c.rest
    → Safe d o
    → Progress c o
Progress-after c d (ok (a, e)) h l k =
    (Advances-trans c d e h k, omega (arith, Advances-rest d e k))
Progress-after c d (err e) h l k = tt
Progress-after c d panic h l k = k
Progress-after c d hangs h l k = tt

module _ {ℓ κ} (n : ℕ) {A : Type ℓ} {B : Type κ} where
  Progress-bind :
      (c : Cursor) (o : Outcome DeserializeError (A × Cursor)) (f : A → Reader B)
      → n ≤ length c.consumed
      → Progress c o
      → ((a : A) → Frames n (f a))
      → Progress c (Monad.◌>>=◌ o λ (a, d). f a d)
  Progress-bind c (ok (a, d)) f l h k =
      Progress-after c d (f a d) h.0 h.1 ((k a).at_every d (Advances-position n c d h.0 l))
  Progress-bind c (err e) f l h k = tt
  Progress-bind c panic f l h k = h
  Progress-bind c hangs f l h k = tt

  -- The first of two readers takes a byte.
  pub Consumes-bind :
      (p : Reader A) (f : A → Reader B)
      → Consumes n p
      → ((a : A) → Frames n (f a))
      → Consumes n (p >>= f)
  unfolding ◌>>=◌
  Consumes-bind p f h k = record { at_every = λ c l. Progress-bind c (p c) f l (h.at_every c l) k }

pub Consumes-position {ℓ} :
    (n : ℕ) {A : Type ℓ} (f : ℕ → Reader A)
    → ((m : ℕ) → Consumes m (f m))
    → Consumes n (get_position >>= f)
unfolding ◌>>=◌ position
Consumes-position n f k = record {
  at_every = λ c l. (k (length c.consumed)).at_every c (omega arith);
}

pub Consumes-ensure {ℓ} :
    (n : ℕ) {A : Type ℓ} (t : Bool) (e : DeserializeError) (k : Reader A)
    → Consumes n k
    → Consumes n (ensure t e >> k)
unfolding ◌>>◌
Consumes-ensure n true e k h = record { at_every = λ c l. h.at_every c l }
Consumes-ensure n false e k h = record { at_every = λ c l. tt }

pub Consumes-exact : (n k : ℕ) → 0 < k → Consumes n (read_exact k)
unfolding read_exact
Consumes-exact n k h = record {
  at_every = λ c l. elim (Bool-cases (leb k (length c.rest))) [
    | inl e ↦ rw e (
      (take k c.rest, refl, sym (take-append-drop k c.rest)),
      omega (
        arith,
        length-take k c.rest (leb→le k (length c.rest) e),
        ap length (take-append-drop k c.rest),
        length-append (take k c.rest) (drop k c.rest),
      ),
    )
    | inr e ↦ rw e tt
  ];
}

pub Consumes-be : (n k : ℕ) → 0 < k → Consumes n (read_be k)
unfolding read_be
Consumes-be n k h = Consumes-bind n _ _ (Consumes-exact n k h) λ bytes. Frames-pure n _

Progress-eq {ℓ} :
    {A : Type ℓ} (c c' : Cursor) (a : A) (o : Outcome DeserializeError (A × Cursor))
    → o ≡ ok (a, c')
    → Progress c o
    → Advances c c' × (length c'.rest < length c.rest)
Progress-eq c c' a o e h = subst (Progress c) e h

pub Consumes-eq {ℓ} :
    {A : Type ℓ} (p : Reader A) (c c' : Cursor) (a : A)
    → Consumes 0 p
    → p c ≡ ok (a, c')
    → Advances c c' × (length c'.rest < length c.rest)
Consumes-eq p c c' a h e = Progress-eq c c' a (p c) e (h.at_every c (omega arith))
