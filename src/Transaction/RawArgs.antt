-- ===== src/Transaction/RawArgs.antt =====
-- The bytes that the arguments of a contract call keep, in stacks_tx/deserialize.rs.
use stacks_encoding_native_j.Wire.ByteOrder.{big_endian-IsByteOrder}
use stacks_encoding_native_j.Prelude.{
  ℕ, zero, suc, ◌≡◌, refl, sym, arith, subst, List, [], ◌∷◌, ◌++◌, length, append-nil, true, some,
  Outcome, ok, >>=-eq-ok,
}
use stacks_encoding_native_j.Wire.Cursor.{Cursor}
use stacks_encoding_native_j.Wire.Error.{DeserializeError}
use stacks_encoding_native_j.Wire.Reader.{
  Reader, pure, read_be, read_exact, read_vec, from_be_bytes, from_be_bytes_acc,
}
use stacks_encoding_native_j.Wire.Reader
use stacks_encoding_native_j.Wire.ByteOrder.{big_endian}
use stacks_encoding_native_j.Clarity.Types.{ClarityValue, clarity_value}
use stacks_encoding_native_j.Clarity.Deserialize.{deserialize}
use stacks_encoding_native_j.Clarity.Kept.{Keeps, deserialize-Keeps}
use stacks_encoding_native_j.Wire.Taken.{Between, Between-append}

pub some-eq : {xs ys : List ℕ} → some xs ≡ some ys → xs ≡ ys
some-eq h = cc h

-- `xs` are the bytes that the values keep, one after the other.
abbrev pub IsRaw : List ClarityValue → List ℕ → Type 0
IsRaw [] xs = xs ≡ []
IsRaw (clarity_value kept v ∷ args) xs =
    (bytes : List ℕ) × (rest : List ℕ) × (kept ≡ some bytes)
    × (xs ≡ bytes ++ rest)
    × IsRaw args rest

abbrev args_read :
    List ClarityValue → Cursor → Outcome DeserializeError (List ClarityValue × Cursor)
args_read args c = ok (args, c)

args_read-eq :
    {xs ys : List ClarityValue} {c d : Cursor}
    → args_read xs c ≡ args_read ys d
    → (xs ≡ ys) × (c ≡ d)
args_read-eq h = (cc h, cc h)

-- What a loop that reads `n` values did.
pub record ReadArgs (n : ℕ) (args : List ClarityValue) (c c' : Cursor) : Type 0 where
  pub raw : List ℕ
  pub between : Between c raw c'
  pub is_raw : IsRaw args raw
  pub count : length args ≡ n

ReadArgs-cons :
    (n : ℕ) (v : ClarityValue) (args : List ClarityValue) (c d e : Cursor)
    → Keeps c v d
    → ReadArgs n args d e
    → ReadArgs (suc n) (v ∷ args) c e
ReadArgs-cons n (clarity_value kept v) args c d e (xs, k, p, q) r = record {
  raw = xs ++ r.raw;
  between = Between-append c d e xs r.raw (p, q) r.between;
  is_raw = (xs, r.raw, k, refl, r.is_raw);
  count = omega (arith, r.count);
}

pub ReadArgs-vec :
    (n : ℕ) (c c' : Cursor) (args : List ClarityValue)
    → read_vec (deserialize big_endian true) n c ≡ ok (args, c')
    → ReadArgs n args c c'
unfolding read_vec Reader.◌>>=◌
ReadArgs-vec zero c c' args r =
    let (same_args, same_cursor) = args_read-eq r in
    subst (λ x. ReadArgs zero x c c') same_args
      (subst (ReadArgs zero [] c) same_cursor (record {
        raw = [];
        between = (sym (append-nil c.consumed), refl);
        is_raw = refl;
        count = refl;
      }))
ReadArgs-vec (suc n) c c' args r =
    let ((v, d), m, rest) = >>=-eq-ok (deserialize big_endian true c) _ r in
    let ((vs, e), k, made) = >>=-eq-ok (read_vec (deserialize big_endian true) n d) _ rest in
    let (same_args, same_cursor) = args_read-eq made in
    subst (λ x. ReadArgs (suc n) x c c') same_args
      (subst (ReadArgs (suc n) (v ∷ vs) c) same_cursor (
        ReadArgs-cons n v vs c d e (deserialize-Keeps big_endian v c d big_endian-IsByteOrder m)
          (ReadArgs-vec n d e vs k)))
