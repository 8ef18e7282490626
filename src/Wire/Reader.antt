-- ===== src/Wire/Reader.antt =====
-- Functions that read from a cursor, and the reads of Rust's standard library.
use stacks_encoding_native_j.Prelude.{ℕ, zero, suc, ◌+◌, ◌*◌, Bool, true, false, List, []}
use stacks_encoding_native_j.Prelude.{
  ◌∷◌, ◌++◌, length, take, drop, leb, if◌then◌else◌, Option, none, some,
}
use stacks_encoding_native_j.Prelude.Monad
use stacks_encoding_native_j.Prelude.{Outcome, ok, err, panic, hangs}
use stacks_encoding_native_j.Wire.Cursor.{Cursor, position, get_ref}
use stacks_encoding_native_j.Wire.Error.{DeserializeError, io_error, from_str}

abbrev pub Reader {ℓ} : Type ℓ → Type ℓ
Reader A = Cursor → Outcome DeserializeError (A × Cursor)

abbrev pub pure {ℓ} : {A : Type ℓ} → A → Reader A
pure a c = ok (a, c)

module _ {ℓ κ} {A : Type ℓ} {B : Type κ} where
  infixl 5 ◌>>=◌ ◌>>◌
  unfoldable pub ◌>>=◌ : Reader A → (A → Reader B) → Reader B
  ◌>>=◌ m f c = Monad.◌>>=◌ (m c) λ (a, c'). f a c'

  unfoldable pub ◌>>◌ : Reader A → Reader B → Reader B
  ◌>>◌ m k c = Monad.◌>>=◌ (m c) λ (a, c'). k c'

-- `return Err(e)`, for an error made from a formatted message.
abbrev pub fail {ℓ} : {A : Type ℓ} → DeserializeError → Reader A
fail e c = err e

-- The error that a conversion made, or no return if it made none.
abbrev pub converted {ℓ} : {A : Type ℓ} → Option DeserializeError → Outcome DeserializeError A
converted (some e) = err e
converted none = hangs

-- `return Err(text.into())` and `?`, for an error that is a plain string. One call of `from_str` is
-- followed: Wire.Error shows that more of them make no difference.
abbrev pub fail_str {ℓ} : {A : Type ℓ} → Reader A
fail_str c = converted (from_str 1)

-- `ok_or` with a formatted message, and with a plain string, each followed by `?`.
abbrev pub ok_or {ℓ} : {A : Type ℓ} → Option A → DeserializeError → Reader A
ok_or (some a) e = pure a
ok_or none e = fail e

abbrev pub ok_or_str {ℓ} : {A : Type ℓ} → Option A → Reader A
ok_or_str (some a) = pure a
ok_or_str none = fail_str

abbrev pub ensure : Bool → DeserializeError → Reader (Unit {0})
ensure true e = pure tt
ensure false e = fail e

abbrev pub ensure_str : Bool → Reader (Unit {0})
ensure_str true = pure tt
ensure_str false = fail_str

abbrev pub get_position : Reader ℕ
get_position c = ok (position c, c)

-- `read_exact` into a buffer of `n` bytes.
unfoldable pub read_exact : ℕ → Reader (List ℕ)
read_exact n c =
    if leb n (length c.rest)
    then ok (take n c.rest, record { consumed = c.consumed ++ take n c.rest; rest = drop n c.rest })
    else err io_error

-- `get_ref()[from..position()]`, which panics if `from` lies behind the position.
unfoldable pub slice_from : ℕ → Reader (List ℕ)
slice_from from c = if leb from (length c.consumed) then ok (drop from c.consumed, c) else panic

-- `set_position`, for a position within the slice.
unfoldable pub set_position : ℕ → Reader (Unit {0})
set_position n c = ok (tt, record { consumed = take n (get_ref c); rest = drop n (get_ref c) })

-- A loop that reads `n` values and pushes them on a vector.
unfoldable pub read_vec {ℓ} : {A : Type ℓ} → Reader A → ℕ → Reader (List A)
read_vec read zero = pure []
read_vec read (suc n) = do x ← read; xs ← read_vec read n; pure (x ∷ xs)

-- `from_be_bytes`
unfoldable pub from_be_bytes_acc : ℕ → List ℕ → ℕ
from_be_bytes_acc acc [] = acc
from_be_bytes_acc acc (b ∷ bs) = from_be_bytes_acc (acc * 256 + b) bs

unfoldable pub from_be_bytes : List ℕ → ℕ
from_be_bytes bs = from_be_bytes_acc 0 bs

-- A big-endian number of `n` bytes.
unfoldable pub read_be : ℕ → Reader ℕ
read_be n = do bytes ← read_exact n; pure (from_be_bytes bytes)
