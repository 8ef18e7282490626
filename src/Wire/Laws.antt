-- ===== src/Wire/Laws.antt =====
-- Laws of readers: what a reader takes from the front of its input.
use stacks_encoding_native_j.Prelude.{
  ℕ, zero, suc, ◌+◌, ◌*◌, ◌/◌, ◌%◌, ◌^◌, ◌<◌, ◌≡◌, refl, arith, List, [], ◌∷◌, ◌++◌,
}
use stacks_encoding_native_j.Prelude.{length, take-append, drop-append, append-nil}
use stacks_encoding_native_j.Prelude.{append_assoc, le→leb, length-append, ok}
use stacks_encoding_native_j.Wire.Cursor.{Cursor}
use stacks_encoding_native_j.Wire.Reader.{Reader, pure, ◌>>=◌, read_exact, slice_from, read_be}
use stacks_encoding_native_j.Wire.Reader.{from_be_bytes, from_be_bytes_acc}

-- The cursor between `pre` and `post`.
abbrev pub at : List ℕ → List ℕ → Cursor
at pre post = record { consumed = pre; rest = post }

-- Wherever `xs` comes next, `p` takes just `xs` and returns `a`.
abbrev pub Reads {ℓ} : {A : Type ℓ} → Reader A → List ℕ → A → Type ℓ
Reads p xs a = (pre post : List ℕ) → p (at pre (xs ++ post)) ≡ ok (a, at (pre ++ xs) post)

module _ {ℓ} {A : Type ℓ} where
  pub Reads-pure : (a : A) → Reads (pure a) [] a
  Reads-pure a pre post = rw append-nil refl

  -- The same, with the bytes spelled otherwise.
  pub Reads-bytes : (p : Reader A) (xs ys : List ℕ) (a : A) → xs ≡ ys → Reads p xs a → Reads p ys a
  Reads-bytes p xs ys a e h = rw (← e) h

  pub Reads-value : (p : Reader A) (xs : List ℕ) (a b : A) → a ≡ b → Reads p xs a → Reads p xs b
  Reads-value p xs a b e h = rw (← e) h

pub Reads-bind {ℓ κ} :
    {A : Type ℓ} {B : Type κ} (p : Reader A) (f : A → Reader B) (xs ys : List ℕ) (a : A) (b : B)
    → Reads p xs a
    → Reads (f a) ys b
    → Reads (p >>= f) (xs ++ ys) b
unfolding ◌>>=◌
Reads-bind p f xs ys a b h k pre post =
    rw (append_assoc xs ys post, ← append_assoc pre xs ys, h pre (ys ++ post)) (k (pre ++ xs) post)

-- A reader, and a function of what it read.
pub Reads-map {ℓ κ} :
    {A : Type ℓ} {B : Type κ} (p : Reader A) (f : A → B) (xs : List ℕ) (a : A)
    → Reads p xs a
    → Reads (p >>= λ x. pure (f x)) xs (f a)
unfolding ◌>>=◌
Reads-map p f xs a h pre post = rw (h pre post) refl

pub Reads-exact : (n : ℕ) (xs : List ℕ) → length xs ≡ n → Reads (read_exact n) xs xs
unfolding read_exact
Reads-exact n xs e pre post =
    rw
      (
        ← e,
        le→leb (length xs) (length (xs ++ post)) (omega (arith, length-append xs post)),
        take-append xs post,
        drop-append xs post,
      )
      refl

-- The slice from the position at which `xs` began.
pub slice_from-at :
    (pre xs post : List ℕ)
    → slice_from (length pre) (at (pre ++ xs) post) ≡ ok (xs, at (pre ++ xs) post)
unfolding slice_from
slice_from-at pre xs post =
    rw
      (
        le→leb (length pre) (length (pre ++ xs)) (omega (arith, length-append pre xs)),
        drop-append pre xs,
      )
      refl

-- The `n` bytes of a number, most significant first.
unfoldable pub to_be : ℕ → ℕ → List ℕ
to_be zero v = []
to_be (suc n) v = to_be n (v / 256) ++ (v % 256 ∷ [])

pub length-to_be : (n v : ℕ) → length (to_be n v) ≡ n
unfolding to_be
length-to_be zero v = refl
length-to_be (suc n) v =
    omega (arith, length-append (to_be n (v / 256)) (v % 256 ∷ []), length-to_be n (v / 256))

from_be_bytes_acc-append :
    (acc : ℕ) (xs : List ℕ) (b : ℕ)
    → from_be_bytes_acc acc (xs ++ (b ∷ [])) ≡ from_be_bytes_acc acc xs * 256 + b
unfolding from_be_bytes_acc
from_be_bytes_acc-append acc [] b = refl
from_be_bytes_acc-append acc (x ∷ xs) b = from_be_bytes_acc-append (acc * 256 + x) xs b

pub from_be_bytes-to_be : (n v : ℕ) → v < 256 ^ n → from_be_bytes (to_be n v) ≡ v
unfolding from_be_bytes to_be from_be_bytes_acc
from_be_bytes-to_be zero v h = omega arith
from_be_bytes-to_be (suc n) v h = omega (
  arith,
  from_be_bytes_acc-append 0 (to_be n (v / 256)) (v % 256),
  from_be_bytes-to_be n (v / 256) (omega arith),
)

pub Reads-be : (n v : ℕ) → v < 256 ^ n → Reads (read_be n) (to_be n v) v
unfolding read_be ◌>>=◌ to_be
Reads-be n v h pre post =
    rw (Reads-exact n (to_be n v) (length-to_be n v) pre post, from_be_bytes-to_be n v h) refl

-- One byte, whatever its size.
pub Reads-byte : (x : ℕ) → Reads (read_be 1) (x ∷ []) x
unfolding read_be ◌>>=◌ from_be_bytes from_be_bytes_acc
Reads-byte x pre post =
    let start : 0 * 256 + x ≡ x = omega arith in
    rw (Reads-exact 1 (x ∷ []) refl pre post) (rw start refl)

-- A byte, and what depends on it.
pub Reads-tag {ℓ} :
    {A : Type ℓ} (f : ℕ → Reader A) (x : ℕ) (ys : List ℕ) (a : A)
    → Reads (f x) ys a
    → Reads (read_be 1 >>= f) (x ∷ ys) a
Reads-tag f x ys a h = Reads-bind _ f (x ∷ []) ys x a (Reads-byte x) h

pub Reads-return {ℓ κ} :
    {A : Type ℓ} {B : Type κ} (f : A → Reader B) (a : A) (xs : List ℕ) (b : B)
    → Reads (f a) xs b
    → Reads (pure a >>= f) xs b
unfolding ◌>>=◌
Reads-return f a xs b h pre post = h pre post

-- A last step that takes nothing.
pub Reads-last {ℓ κ} :
    {A : Type ℓ} {B : Type κ} (p : Reader A) (f : A → Reader B) (xs : List ℕ) (a : A) (b : B)
    → Reads p xs a
    → ((c : Cursor) → f a c ≡ ok (b, c))
    → Reads (p >>= f) xs b
unfolding ◌>>=◌
Reads-last p f xs a b h k pre post = rw (h pre post) (k (at (pre ++ xs) post))
