-- ===== src/Address/Crockford/Decode.antt =====
-- The decoder of address/c32.rs as a whole, against its encoder.
use stacks_encoding_native_j.Prelude.{ℕ, zero, suc, ◌<◌, ◌≡◌, refl, sym, ap, ◌∙◌}
use stacks_encoding_native_j.Prelude.{arith, List, [], ◌∷◌, ◌++◌, map, reverse, append-nil}
use stacks_encoding_native_j.Prelude.{All-reverse, Outcome, ok, err, panic, hangs, ◌>>=◌, ne→==}
use stacks_encoding_native_j.Prelude.{
  ok_or, some, none, Option, map-reverse, true, subst, >>=-eq-ok,
}
use stacks_encoding_native_j.Radix.{Digits, SameNumber, zeros, leading_zeros, skip_zeros}
use stacks_encoding_native_j.Radix.{SameNumber-zeros_skip, Digits-zeros_skip, SameNumber-sym}
use stacks_encoding_native_j.Radix.{SameNumber-trans, SameNumber-unique}
use stacks_encoding_native_j.Address.Crockford.Tables.{c32_digit, digit_char, c32_digit-digit_char}
use stacks_encoding_native_j.Address.Crockford.Tables.{
  c32_digit_bounded, digit_char-ascii, normalize,
}
use stacks_encoding_native_j.Address.Crockford.Tables.{digit_char-c32_digit}
use native.Mathlib.Nat.{le_refl}
use stacks_encoding_native_j.Address.Crockford.Defs.{C32Error, invalid_string, c32_encode}
use stacks_encoding_native_j.Address.Crockford.DecodeDefs.{
  read_digits, truncate_zeros, push_zeros, push_carry,
}
use stacks_encoding_native_j.Address.Crockford.DecodeDefs.{
  decode_loop, decode_digits, c32_decode_ascii,
}
use stacks_encoding_native_j.Address.Crockford.DecodeDefs.{is_ascii, c32_decode}
use stacks_encoding_native_j.Address.Crockford.Bytes.{regroup, value-regroup, Digits-regroup, state}
use stacks_encoding_native_j.Address.Crockford.Bytes.{decode_loop_lem}
use stacks_encoding_native_j.Address.Crockford.Encode.{
  c32_digits, c32_digits-Digits, c32_digits-SameNumber,
}
use stacks_encoding_native_j.Address.Crockford.Encode.{c32_encode_to_buffer-eq}
use mathlib.Core.List.{reverse-reverse}

truncate_zeros-eq : (bs : List ℕ) → truncate_zeros bs ≡ skip_zeros bs
unfolding truncate_zeros skip_zeros
truncate_zeros-eq [] = refl
truncate_zeros-eq (zero ∷ bs) = truncate_zeros-eq bs
truncate_zeros-eq (suc b ∷ bs) = rw (ne→== (suc b) 0 (omega arith)) refl

push_zeros-eq : (ds out : List ℕ) → push_zeros ds out ≡ zeros (leading_zeros ds) ++ out
unfolding push_zeros leading_zeros
push_zeros-eq [] out = refl
push_zeros-eq (zero ∷ ds) out = push_zeros-eq ds (0 ∷ out) ∙ slide (leading_zeros ds)
  where
    slide : (n : ℕ) → zeros n ++ (0 ∷ out) ≡ 0 ∷ (zeros n ++ out)
    slide zero = refl
    slide (suc n) = ap (λ t. 0 ∷ t) (slide n)
push_zeros-eq (suc d ∷ ds) out = rw (ne→== (suc d) 0 (omega arith)) refl

-- The bytes that digits are decoded to; `ds` is in the order of the text.
abbrev pub bytes_of : List ℕ → List ℕ
bytes_of ds = zeros (leading_zeros ds) ++ skip_zeros (reverse (regroup 0 0 (reverse ds)))

decode_digits-eq : (ds : List ℕ) → Digits 32 ds → decode_digits (reverse ds) ≡ bytes_of ds
unfolding decode_digits
decode_digits-eq ds h =
    ap (λ t. push_zeros (reverse (reverse ds)) (truncate_zeros t)) looped
    ∙ ap (push_zeros (reverse (reverse ds))) (truncate_zeros-eq (reverse bytes))
    ∙ ap (λ t. push_zeros t (skip_zeros (reverse bytes))) (reverse-reverse ds)
    ∙ push_zeros-eq ds (skip_zeros (reverse bytes))
  where
    bytes : List ℕ
    bytes = regroup 0 0 (reverse ds)

    looped : push_carry (decode_loop (state 0 0 []) (reverse ds)) ≡ reverse bytes
    looped =
        decode_loop_lem 0 0 (reverse ds) [] (omega arith) (omega arith) (All-reverse _ ds h)
        ∙ append-nil (reverse bytes)

pub bytes_of-SameNumber : (ds : List ℕ) → Digits 32 ds → SameNumber 32 ds 256 (bytes_of ds)
bytes_of-SameNumber ds h =
    SameNumber-zeros_skip 32 ds 256 (regroup 0 0 (reverse ds)) (
      omega
        (arith, value-regroup 0 0 (reverse ds) (omega arith) (omega arith) (All-reverse _ ds h)))

pub bytes_of-Digits : (ds : List ℕ) → Digits 32 ds → Digits 256 (bytes_of ds)
bytes_of-Digits ds h =
    Digits-zeros_skip 256 (leading_zeros ds) (regroup 0 0 (reverse ds)) (omega arith)
      (Digits-regroup 0 0 (reverse ds) (omega arith) (omega arith) (All-reverse _ ds h))

read_digits-map : (ds : List ℕ) → Digits 32 ds → read_digits (map digit_char ds) ≡ ok ds
unfolding read_digits
read_digits-map [] h = refl
read_digits-map (d ∷ ds) h = rw (c32_digit-digit_char d h.0) (rw (read_digits-map ds h.1) refl)

-- Decoding the text of some digits.
pub decode-map :
    (ds : List ℕ) → Digits 32 ds → c32_decode_ascii (map digit_char ds) ≡ ok (bytes_of ds)
unfolding c32_decode_ascii
decode-map ds h =
    ap (λ t. read_digits t >>= λ digits. ok (decode_digits digits))
      (sym (map-reverse digit_char ds))
    ∙ ap (λ t. t >>= λ digits. ok (decode_digits digits))
        (read_digits-map (reverse ds) (All-reverse _ ds h))
    ∙ ap ok (decode_digits-eq ds h)

pub is_ascii-map : (ds : List ℕ) → Digits 32 ds → is_ascii (map digit_char ds) ≡ true
unfolding is_ascii
is_ascii-map [] h = refl
is_ascii-map (d ∷ ds) h = rw (digit_char-ascii d h.0) (is_ascii-map ds h.1)

pub c32_encode-eq :
    (input : List ℕ) → Digits 256 input → c32_encode input ≡ ok (map digit_char (c32_digits input))
unfolding c32_encode
c32_encode-eq input h = c32_encode_to_buffer-eq input _ h (le_refl _)

pub bytes_of-c32_digits : (input : List ℕ) → Digits 256 input → bytes_of (c32_digits input) ≡ input
bytes_of-c32_digits input h =
    let ds = c32_digits input in
    let digits = c32_digits-Digits input h in
    SameNumber-unique 256 (bytes_of ds) input (omega arith) (bytes_of-Digits ds digits) h (
      SameNumber-sym 256 input 256 (bytes_of ds) (
        SameNumber-trans 256 input 32 ds 256 (bytes_of ds) (c32_digits-SameNumber input h)
          (bytes_of-SameNumber ds digits)))

-- The decoder of ASCII text gives back what was encoded.
pub c32_decode_ascii-c32_digits :
    (input : List ℕ)
    → Digits 256 input
    → c32_decode_ascii (map digit_char (c32_digits input)) ≡ ok input
c32_decode_ascii-c32_digits input h =
    decode-map (c32_digits input) (c32_digits-Digits input h) ∙ ap ok (bytes_of-c32_digits input h)

-- `c32_encode` succeeds on every list of bytes, and `c32_decode` of its result returns the bytes.
pub c32_decode-c32_encode :
    (input : List ℕ) → Digits 256 input → (c32_encode input >>= c32_decode) ≡ ok input
unfolding c32_decode
c32_decode-c32_encode input h = rw (c32_encode-eq input h) (
    rw (is_ascii-map (c32_digits input) (c32_digits-Digits input h))
      (c32_decode_ascii-c32_digits input h))

-- What reading the digits of a text tells of them.
pub read_digits-ok :
    (xs ds : List ℕ)
    → read_digits xs ≡ ok ds
    → Digits 32 ds × (map digit_char ds ≡ map normalize xs)
unfolding read_digits
read_digits-ok [] [] e = (tt, refl)
read_digits-ok [] (d ∷ ds) e = cc
read_digits-ok (x ∷ xs) ds e = go (c32_digit x) (read_digits xs) refl (read_digits-ok xs) e
  where
    go :
        (o : Option ℕ) (r : Outcome C32Error (List ℕ))
        → c32_digit x ≡ o
        → ((es : List ℕ) → r ≡ ok es → Digits 32 es × (map digit_char es ≡ map normalize xs))
        → (ok_or o invalid_string >>= λ d. r >>= λ es. ok (d ∷ es)) ≡ ok ds
        → Digits 32 ds × (map digit_char ds ≡ map normalize (x ∷ xs))
    go none r e₁ ih e₂ = cc
    go (some d) (ok es) e₁ ih e₂ =
        let (digits, spelled) = ih es refl in
        let whole : d ∷ es ≡ ds = cc e₂ in
        subst (λ t. Digits 32 t × (map digit_char t ≡ map normalize (x ∷ xs))) whole
          ((c32_digit_bounded x d e₁, digits), rw (digit_char-c32_digit x d e₁, spelled) refl)
    go (some d) (err f) e₁ ih e₂ = cc
    go (some d) panic e₁ ih e₂ = cc
    go (some d) hangs e₁ ih e₂ = cc

encode-bytes_of : (ds : List ℕ) → Digits 32 ds → c32_encode (bytes_of ds) ≡ ok (map digit_char ds)
encode-bytes_of ds h =
    let bytes = bytes_of ds in
    let are_bytes = bytes_of-Digits ds h in
    c32_encode-eq bytes are_bytes
    ∙ ap (λ t. ok (map digit_char t))
        (SameNumber-unique 32 (c32_digits bytes) ds (omega arith)
          (c32_digits-Digits bytes are_bytes) h
          (SameNumber-sym 32 ds 32 (c32_digits bytes) (
            SameNumber-trans 32 ds 256 bytes 32 (c32_digits bytes) (bytes_of-SameNumber ds h)
              (c32_digits-SameNumber bytes are_bytes))))

-- Text that decodes to some bytes has digits, in the encoder's own spelling, and the bytes are theirs.
c32_decode_ascii-eq-ok :
    (text bytes : List ℕ)
    → c32_decode_ascii text ≡ ok bytes
    → (ds : List ℕ) × Digits 32 ds
      × (bytes ≡ bytes_of ds)
      × (map digit_char ds ≡ map normalize text)
unfolding c32_decode_ascii
c32_decode_ascii-eq-ok text bytes e =
    let (es, read, decoded) = >>=-eq-ok (read_digits (reverse text)) _ e in
    let (digits, spelled) = read_digits-ok (reverse text) es read in
    let digits' = All-reverse (λ d. d < 32) es digits in
    let is_bytes_of : bytes ≡ bytes_of (reverse es) =
      cc (decoded, sym (decode_digits-eq (reverse es) digits'), reverse-reverse es) in
    (
      reverse es,
      digits',
      is_bytes_of,
      map-reverse digit_char es
          ∙ ap reverse spelled
          ∙ ap reverse (map-reverse normalize text)
          ∙ reverse-reverse (map normalize text),
    )

pub c32_decode_ascii-Digits :
    (text bytes : List ℕ) → c32_decode_ascii text ≡ ok bytes → Digits 256 bytes
c32_decode_ascii-Digits text bytes e =
    let (ds, digits, is_bytes_of, spelled) = c32_decode_ascii-eq-ok text bytes e in
    subst (Digits 256) (sym is_bytes_of) (bytes_of-Digits ds digits)

-- A text that `c32_decode_ascii` decodes to some bytes is their encoding, with the text in upper
-- case and O, I and L written as 0, 1 and 1.
pub c32_encode-c32_decode_ascii :
    (text bytes : List ℕ)
    → c32_decode_ascii text ≡ ok bytes
    → c32_encode bytes ≡ ok (map normalize text)
c32_encode-c32_decode_ascii text bytes e =
    let (ds, digits, is_bytes_of, spelled) = c32_decode_ascii-eq-ok text bytes e in
    rw is_bytes_of (encode-bytes_of ds digits ∙ ap ok spelled)
