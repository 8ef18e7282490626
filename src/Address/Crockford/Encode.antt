-- ===== src/Address/Crockford/Encode.antt =====
-- The encoder of address/c32.rs as a whole: the specification of `c32_encode_to_buffer`, and the
-- size of its buffer.
use stacks_encoding_native_j.Prelude.{ℕ, zero, suc, ◌+◌, ◌*◌, ◌≤◌, ◌≡◌, refl, sym, ap, ◌∙◌}
use stacks_encoding_native_j.Prelude.{arith, List, [], ◌∷◌, ◌++◌, map, reverse, length}
use stacks_encoding_native_j.Prelude.{length-reverse, All-reverse, ok, ◌>>=◌}
use stacks_encoding_native_j.Prelude.{
  ==_refl, ne→==, le→ltb, lt→ltb, append_assoc, append-nil, >>=-chain, length-map,
}
use stacks_encoding_native_j.Radix.{value, Digits, SameNumber, zeros, leading_zeros, skip_zeros}
use stacks_encoding_native_j.Radix.{SameNumber-zeros_skip, Digits-zeros_skip, Digits-skip_zeros}
use stacks_encoding_native_j.Radix.{strip, strip_unique, length-strip, skip_zeros-reverse}
use stacks_encoding_native_j.Radix.{strip-skip_zeros, length-skip_zeros}
use stacks_encoding_native_j.Address.Crockford.Tables.{digit_char, digit_char-zero}
use stacks_encoding_native_j.Address.Crockford.Defs.{
  remove_zeros, add_zeros, write, encode_loop, write_carry, c32_encode_to_buffer,
  get_max_c32_encode_output_len,
}
use stacks_encoding_native_j.Address.Crockford.Digits.{
  regroup, value-regroup, Digits-regroup, length-regroup,
}
use stacks_encoding_native_j.Address.Crockford.Rounds.{push, state, encode_loop_lem}
use mathlib.Core.List.{reverse-cons, map-append}

-- The digits of the input's number, lowest first, and those of the output.
abbrev regrouped : List ℕ → List ℕ
regrouped input = regroup 0 0 (reverse input)

abbrev pub c32_digits : List ℕ → List ℕ
c32_digits input = zeros (leading_zeros input) ++ skip_zeros (reverse (regrouped input))

push-eq : (ds out : List ℕ) → push ds out ≡ map digit_char (reverse ds) ++ out
unfolding push
push-eq [] out = refl
push-eq (d ∷ ds) out = push-eq ds (digit_char d ∷ out) ∙ sym slide
  where
    slide :
        map digit_char (reverse (d ∷ ds)) ++ out
        ≡ map digit_char (reverse ds) ++ (digit_char d ∷ out)
    slide =
        ap (λ t. map digit_char t ++ out) (reverse-cons d ds)
        ∙ ap (λ t. t ++ out) (map-append digit_char (reverse ds) (d ∷ []))
        ∙ append_assoc (map digit_char (reverse ds)) (digit_char d ∷ []) out

-- The loop that takes zeros off the text takes them off the digits.
remove_zeros-map :
    (ds : List ℕ) → Digits 32 ds → remove_zeros (map digit_char ds) ≡ map digit_char (skip_zeros ds)
unfolding remove_zeros skip_zeros
remove_zeros-map [] h = refl
remove_zeros-map (zero ∷ ds) h = rw (==_refl (digit_char 0)) (remove_zeros-map ds h.1)
remove_zeros-map (suc d ∷ ds) h =
    rw
      (ne→== (digit_char (suc d)) (digit_char 0)
        (λ e. omega (arith, digit_char-zero (suc d) h.0 e)))
      refl

zeros_slide :
    (n : ℕ) (out : List ℕ)
    → map digit_char (zeros n) ++ (digit_char 0 ∷ out)
      ≡ digit_char 0 ∷ (map digit_char (zeros n) ++ out)
zeros_slide zero out = refl
zeros_slide (suc n) out = ap (λ t. digit_char 0 ∷ t) (zeros_slide n out)

add_zeros_lem :
    (size : ℕ) (input out : List ℕ)
    → length out + leading_zeros input ≤ size
    → add_zeros size input out ≡ ok (map digit_char (zeros (leading_zeros input)) ++ out)
unfolding add_zeros leading_zeros write
add_zeros_lem size [] out room = refl
add_zeros_lem size (zero ∷ vs) out room =
    rw (lt→ltb (length out) size (omega arith), write)
      (add_zeros_lem size vs (digit_char 0 ∷ out) (omega arith)
        ∙ ap ok (zeros_slide (leading_zeros vs) out))
add_zeros_lem size (suc v ∷ vs) out room = rw (ne→== (suc v) 0 (omega arith)) refl

-- How many digits are left when the zeros in front are gone.
stripped_length :
    (input : List ℕ)
    → Digits 256 input
    → 5 * length (skip_zeros (reverse (regrouped input))) ≤ 8 * length (skip_zeros input) + 4
stripped_length input h = omega (
  arith,
  ap length (skip_zeros-reverse (regrouped input)),
  length-reverse (strip (regrouped input)),
  ap length (strip_unique 32 (regrouped input) (regrouped rest) (omega arith) digits digits' same),
  length-strip (regrouped rest),
  length-regroup 0 0 (reverse rest) (omega arith),
  length-reverse rest,
)
  where
    rest : List ℕ
    rest = skip_zeros input

    bytes : Digits 256 (reverse rest)
    bytes = All-reverse _ rest (Digits-skip_zeros 256 input h)

    digits : Digits 32 (regrouped input)
    digits = Digits-regroup 0 0 (reverse input) (omega arith) (omega arith) (All-reverse _ input h)

    digits' : Digits 32 (regrouped rest)
    digits' = Digits-regroup 0 0 (reverse rest) (omega arith) (omega arith) bytes

    same : value 32 (regrouped input) ≡ value 32 (regrouped rest)
    same = omega (
      arith,
      value-regroup 0 0 (reverse input) (omega arith) (omega arith) (All-reverse _ input h),
      value-regroup 0 0 (reverse rest) (omega arith) (omega arith) bytes,
      strip-skip_zeros 256 input,
    )

pub room_needed :
    (input : List ℕ)
    → Digits 256 input
    → (length (regrouped input) ≤ get_max_c32_encode_output_len (length input))
      × (length (skip_zeros (reverse (regrouped input))) + leading_zeros input
          ≤ get_max_c32_encode_output_len (length input))
unfolding get_max_c32_encode_output_len
room_needed input h = omega (
  arith,
  stripped_length input h,
  length-regroup 0 0 (reverse input) (omega arith),
  length-reverse input,
  length-skip_zeros input,
)

-- The specification: the characters of base-32 digits that have the leading zeros and the number of
-- the input's bytes.
pub record IsEncoding (input out : List ℕ) : Type 0 where
  pub digits : List ℕ
  pub are_digits : Digits 32 digits
  pub same_number : SameNumber 256 input 32 digits
  pub characters : out ≡ map digit_char digits

pub c32_digits-SameNumber :
    (input : List ℕ) → Digits 256 input → SameNumber 256 input 32 (c32_digits input)
c32_digits-SameNumber input h = SameNumber-zeros_skip 256 input 32 (regrouped input) (
    omega (
      arith,
      value-regroup 0 0 (reverse input) (omega arith) (omega arith) (All-reverse _ input h),
    ))

pub c32_digits-Digits : (input : List ℕ) → Digits 256 input → Digits 32 (c32_digits input)
c32_digits-Digits input h =
    Digits-zeros_skip 32 (leading_zeros input) (regrouped input) (omega arith)
      (Digits-regroup 0 0 (reverse input) (omega arith) (omega arith) (All-reverse _ input h))

pub c32_encode_to_buffer-eq :
    (input : List ℕ) (size : ℕ)
    → Digits 256 input
    → get_max_c32_encode_output_len (length input) ≤ size
    → c32_encode_to_buffer input size ≡ ok (map digit_char (c32_digits input))
unfolding c32_encode_to_buffer
c32_encode_to_buffer-eq input size h fits =
    rw (le→ltb size (get_max_c32_encode_output_len (length input)) fits) (
      >>=-chain _ (write_carry size) (λ written. add_zeros size input (remove_zeros written)) loop
      ∙ ap (add_zeros size input) removed
      ∙ add_zeros_lem size input (map digit_char (skip_zeros (reverse ds)))
          (omega (arith, length-map digit_char (skip_zeros (reverse ds)), room_needed input h))
      ∙ ap ok (sym (map-append digit_char (zeros (leading_zeros input)) (skip_zeros (reverse ds)))))
  where
    ds : List ℕ
    ds = regrouped input

    bytes : Digits 256 (reverse input)
    bytes = All-reverse _ input h

    loop : (encode_loop size (state 0 0 []) (reverse input) >>= write_carry size) ≡ ok (push ds [])
    loop =
        encode_loop_lem 0 size 0 (reverse input) [] (omega arith) (omega arith) bytes
          (omega (arith, room_needed input h))

    removed : remove_zeros (push ds []) ≡ map digit_char (skip_zeros (reverse ds))
    removed =
        ap remove_zeros (push-eq ds [] ∙ append-nil (map digit_char (reverse ds)))
        ∙ remove_zeros-map (reverse ds) (
            All-reverse _ ds (Digits-regroup 0 0 (reverse input) (omega arith) (omega arith) bytes))

-- For an input of bytes and a buffer of at least the size that `get_max_c32_encode_output_len`
-- gives, encoding succeeds without an index out of range, and what it writes are the characters of
-- base-32 digits that have the leading zeros and the value of the bytes.
pub c32_encode_to_buffer-IsEncoding :
    (input : List ℕ) (size : ℕ)
    → Digits 256 input
    → get_max_c32_encode_output_len (length input) ≤ size
    → (out : List ℕ) × (c32_encode_to_buffer input size ≡ ok out) × IsEncoding input out
c32_encode_to_buffer-IsEncoding input size h fits = (
  map digit_char (c32_digits input),
  c32_encode_to_buffer-eq input size h fits,
  record {
    digits = c32_digits input;
    are_digits = c32_digits-Digits input h;
    same_number = c32_digits-SameNumber input h;
    characters = refl;
  },
)
