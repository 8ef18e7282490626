-- ===== src/Clarity/Kept.antt =====
-- The bytes that clarity_value/deserialize.rs keeps with a value.
use stacks_encoding_native_j.Prelude.{ℕ, suc, ◌≡◌, ap, subst, arith, List, ◌++◌, length}
use stacks_encoding_native_j.Prelude.{
  drop, drop-append, length-append, le→leb, true, some, Outcome, ok, err, panic, hangs,
}
use stacks_encoding_native_j.Prelude.Monad
use stacks_encoding_native_j.Wire.Cursor.{Cursor, position}
use stacks_encoding_native_j.Wire.Error.{DeserializeError}
use stacks_encoding_native_j.Wire.Reader.{Reader, ◌>>=◌, ◌>>◌, slice_from}
use stacks_encoding_native_j.Wire.ByteOrder.{ByteOrder, IsByteOrder, big_endian, for_byte_order}
use stacks_encoding_native_j.Wire.Frames.{
  Frames, Safe, Advances, Advances-trans, Advances-refl, Frames-exact, Frames-ok_or_str,
}
use stacks_encoding_native_j.Clarity.Types.{ClarityValue, Value, clarity_value, new_with_bytes}
use stacks_encoding_native_j.Clarity.Deserialize.{finish, inner_deserialize_read, deserialize}
use stacks_encoding_native_j.Clarity.Frames.{Frames-body, Frames-inner}

-- The value keeps the bytes between the two cursors.
abbrev pub Keeps : Cursor → ClarityValue → Cursor → Type 0
Keeps c (clarity_value kept v) c' =
    (xs : List ℕ) × (kept ≡ some xs) × (c'.consumed ≡ c.consumed ++ xs) × (c.rest ≡ xs ++ c'.rest)

abbrev Kept : Cursor → Outcome DeserializeError (ClarityValue × Cursor) → Type 0
Kept c (ok (v, c')) = Keeps c v c'
Kept c (err e) = Unit
Kept c panic = Unit
Kept c hangs = Unit

-- The same of a reader that goes on behind what was read from `c` on.
record KeepsFrom (c : Cursor) (p : Reader ClarityValue) : Type 0 where
  after : (d : Cursor) → Advances c d → Kept c (p d)

module _ {ℓ} {A : Type ℓ} (c : Cursor) where
  Kept-bind :
      (d : Cursor) (o : Outcome DeserializeError (A × Cursor)) (f : A → Reader ClarityValue)
      → Advances c d
      → Safe d o
      → ((a : A) → KeepsFrom c (f a))
      → Kept c (Monad.◌>>=◌ o λ (a, e). f a e)
  Kept-bind d (ok (a, e)) f l h k = (k a).after e (Advances-trans c d e l h)
  Kept-bind d (err e) f l h k = tt
  Kept-bind d panic f l h k = tt
  Kept-bind d hangs f l h k = tt

  KeepsFrom-bind :
      (p : Reader A) (f : A → Reader ClarityValue)
      → Frames 0 p
      → ((a : A) → KeepsFrom c (f a))
      → KeepsFrom c (p >>= f)
  unfolding ◌>>=◌
  KeepsFrom-bind p f h k = record {
    after = λ d l. Kept-bind d (p d) f l (h.at_every d (omega arith)) k;
  }

Kept-finish :
    (c d : Cursor) (v : Value)
    → Advances c d
    → Kept c (finish big_endian true (length c.consumed) v d)
unfolding finish ◌>>=◌ slice_from new_with_bytes
Kept-finish c d v (xs, p, q) =
    let slice : drop (length c.consumed) d.consumed ≡ xs = rw p (drop-append c.consumed xs) in
    rw
      (le→leb (length c.consumed) (length d.consumed)
        (omega (arith, ap length p, length-append c.consumed xs)))
      (xs, ap some slice, p, q)

Kept-inner :
    (fuel : ℕ) (c : Cursor) → Kept c (inner_deserialize_read big_endian (suc fuel) 0 true c)
unfolding inner_deserialize_read ◌>>◌ ◌>>=◌ position
Kept-inner fuel c =
    (KeepsFrom-bind c _ _ (Frames-exact 0 1) λ header.
        KeepsFrom-bind c _ _ (Frames-ok_or_str 0 _) λ prefix.
          KeepsFrom-bind c _ _ (Frames-body 0 _ (Frames-inner 0 fuel 1 true) prefix)
            λ v. record { after = λ d l. Kept-finish c d v l }).after
      c (Advances-refl c)

Kept-eq :
    (c c' : Cursor) (v : ClarityValue) (o : Outcome DeserializeError (ClarityValue × Cursor))
    → o ≡ ok (v, c')
    → Kept c o
    → Keeps c v c'
Kept-eq c c' v o e h = subst (Kept c) e h

-- With byte readers as documented, a value that is read with its bytes keeps exactly the bytes that
-- reading it consumed.
pub deserialize-Keeps :
    (b : ByteOrder) (v : ClarityValue) (c c' : Cursor)
    → IsByteOrder b
    → deserialize b true c ≡ ok (v, c')
    → Keeps c v c'
deserialize-Keeps b v c c' hb =
    for_byte_order (λ o. deserialize o true c ≡ ok (v, c') → Keeps c v c')
      (unfold deserialize in λ e. Kept-eq c c' v _ e (Kept-inner 16 c)) b hb
