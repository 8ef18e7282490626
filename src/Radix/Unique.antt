-- ===== src/Radix/Unique.antt =====
-- A digit string is determined by its leading zeros and its number.
use stacks_encoding_native_j.Prelude.{
  ℕ, zero, suc, ◌+◌, ◌*◌, ◌≤◌, ◌<◌, ◌≡◌, refl, sym, ap, ◌∙◌, arith,
}
use stacks_encoding_native_j.Prelude.{List, [], ◌∷◌, ◌++◌, reverse, All-reverse, length}
use stacks_encoding_native_j.Prelude.{All-append, All-replicate}
use stacks_encoding_native_j.Radix.Strip.{
  value, Digits, zeros, leading_zeros, skip_zeros, cons_stripped,
}
use stacks_encoding_native_j.Radix.Strip.{value-append_zeros, value-strip, leading_zeros-zeros}
use stacks_encoding_native_j.Radix.Strip.{leading_zeros-skip_zeros, Digits-skip_zeros}
use stacks_encoding_native_j.Radix.Strip.{length-cons_stripped}
use stacks_encoding_native_j.Radix.Strip.{strip, zeros-append-skip_zeros, skip_zeros-reverse}
use mathlib.Core.List.{reverse-reverse, reverse-cons, reverse-append}
use native.Mathlib.Decide.{dec_lt}

-- `xs` in base `a` and `ys` in base `b` have as many leading zeros, and write the same number.
pub record SameNumber (a : ℕ) (xs : List ℕ) (b : ℕ) (ys : List ℕ) : Type 0 where
  pub same_zeros : leading_zeros xs ≡ leading_zeros ys
  pub same_value : value a (reverse xs) ≡ value b (reverse ys)

product_gap : (b v w : ℕ) → v < w → b * v + b ≤ b * w
product_gap b v w h = grind arith

digit_unique : (b d e v w : ℕ) → d < b → e < b → d + b * v ≡ e + b * w → (d ≡ e) × (v ≡ w)
digit_unique b d e v w hd he h = elim (dec_lt v w) [
  | yes p ↦ absurd (grind (arith, product_gap b v w))
  | no p ↦ elim (dec_lt w v) [
    | yes q ↦ absurd (grind (arith, product_gap b w v))
    | no q ↦ let same : v ≡ w = omega arith in (omega (arith, ap (λ (t : ℕ). b * t) same), same)
  ]
]

value-zero : (b : ℕ) (ds : List ℕ) → 0 < b → value b ds ≡ 0 → strip ds ≡ []
unfolding value strip cons_stripped
value-zero b [] hb h = refl
value-zero b (d ∷ ds) hb h =
    let (low, high) = digit_unique b d 0 (value b ds) 0 (omega arith) hb (omega arith) in
    rw (low, value-zero b ds hb high) refl

pub strip_unique :
    (b : ℕ) (xs ys : List ℕ)
    → 0 < b
    → Digits b xs
    → Digits b ys
    → value b xs ≡ value b ys
    → strip xs ≡ strip ys
unfolding value strip
strip_unique b [] ys hb hx hy h = sym (value-zero b ys hb (sym h))
strip_unique b (x ∷ xs) [] hb hx hy h = value-zero b (x ∷ xs) hb h
strip_unique b (x ∷ xs) (y ∷ ys) hb hx hy h =
    let (low, high) = digit_unique b x y (value b xs) (value b ys) hx.0 hy.0 h in
    rw (low, strip_unique b xs ys hb hx.1 hy.1 high) refl

-- Two digit strings of one base with as many leading zeros and the same number are equal.
pub SameNumber-unique :
    (b : ℕ) (xs ys : List ℕ) → 0 < b → Digits b xs → Digits b ys → SameNumber b xs b ys → xs ≡ ys
SameNumber-unique b xs ys hb hx hy s =
    sym (zeros-append-skip_zeros xs)
    ∙ ap (λ t. zeros t ++ skip_zeros xs) s.same_zeros
    ∙ ap (λ t. zeros (leading_zeros ys) ++ t) stripped
    ∙ zeros-append-skip_zeros ys
  where
    stripped : skip_zeros xs ≡ skip_zeros ys
    stripped =
        ap skip_zeros (sym (reverse-reverse xs))
        ∙ skip_zeros-reverse (reverse xs)
        ∙ ap reverse (
            strip_unique b (reverse xs) (reverse ys) hb (All-reverse _ xs hx) (All-reverse _ ys hy)
              s.same_value)
        ∙ sym (skip_zeros-reverse (reverse ys))
        ∙ ap skip_zeros (reverse-reverse ys)

zeros-append_zero : (n : ℕ) → zeros n ++ (0 ∷ []) ≡ zeros (suc n)
zeros-append_zero zero = refl
zeros-append_zero (suc n) = ap (λ t. 0 ∷ t) (zeros-append_zero n)

reverse-zeros : (n : ℕ) → reverse (zeros n) ≡ zeros n
reverse-zeros zero = refl
reverse-zeros (suc n) =
    reverse-cons 0 (zeros n) ∙ ap (λ t. t ++ (0 ∷ [])) (reverse-zeros n) ∙ zeros-append_zero n

-- Zeros in front of a number, and zeros that its digits had too many: neither changes the value.
pub value-zeros_skip :
    (b n : ℕ) (ds : List ℕ) → value b (reverse (zeros n ++ skip_zeros (reverse ds))) ≡ value b ds
value-zeros_skip b n ds =
    ap (λ t. value b (reverse (zeros n ++ t))) (skip_zeros-reverse ds)
    ∙ ap (value b) (reverse-append (zeros n) (reverse (strip ds)))
    ∙ ap (λ t. value b (t ++ reverse (zeros n))) (reverse-reverse (strip ds))
    ∙ ap (λ t. value b (strip ds ++ t)) (reverse-zeros n)
    ∙ value-append_zeros b (strip ds) n
    ∙ value-strip b ds

-- The way in which every codec here builds its result: the zeros that the input begins with, then
-- the digits of its number with no zero in front.
pub SameNumber-zeros_skip :
    (a : ℕ) (xs : List ℕ) (b : ℕ) (ds : List ℕ)
    → value a (reverse xs) ≡ value b ds
    → SameNumber a xs b (zeros (leading_zeros xs) ++ skip_zeros (reverse ds))
SameNumber-zeros_skip a xs b ds e = record {
  same_zeros = omega (
    arith,
    leading_zeros-zeros (leading_zeros xs) (skip_zeros (reverse ds)),
    leading_zeros-skip_zeros (reverse ds),
  );
  same_value = e ∙ sym (value-zeros_skip b (leading_zeros xs) ds);
}

pub Digits-zeros_skip :
    (b n : ℕ) (ds : List ℕ) → 0 < b → Digits b ds → Digits b (zeros n ++ skip_zeros (reverse ds))
Digits-zeros_skip b n ds hb h =
    All-append _ (zeros n) _ (All-replicate _ n 0 hb)
      (Digits-skip_zeros b (reverse ds) (All-reverse _ ds h))

pub SameNumber-sym :
    (a : ℕ) (xs : List ℕ) (b : ℕ) (ys : List ℕ) → SameNumber a xs b ys → SameNumber b ys a xs
SameNumber-sym a xs b ys s = record { same_zeros = sym s.same_zeros; same_value = sym s.same_value }

pub SameNumber-trans :
    (a : ℕ) (xs : List ℕ) (b : ℕ) (ys : List ℕ) (c : ℕ) (zs : List ℕ)
    → SameNumber a xs b ys
    → SameNumber b ys c zs
    → SameNumber a xs c zs
SameNumber-trans a xs b ys c zs s t = record {
  same_zeros = s.same_zeros ∙ t.same_zeros;
  same_value = s.same_value ∙ t.same_value;
}

-- The number of a digit string is that of what follows its zeros, written in as few digits.
pub strip-skip_zeros :
    (a : ℕ) (xs : List ℕ) → value a (reverse (skip_zeros xs)) ≡ value a (reverse xs)
strip-skip_zeros a xs =
    ap (λ t. value a (reverse (skip_zeros t))) (sym (reverse-reverse xs))
    ∙ value-zeros_skip a 0 (reverse xs)

pub length-strip : (ds : List ℕ) → length (strip ds) ≤ length ds
unfolding strip
length-strip [] = omega arith
length-strip (d ∷ ds) = omega (arith, length-strip ds, length-cons_stripped d (strip ds))

pub length-skip_zeros : (xs : List ℕ) → leading_zeros xs + length (skip_zeros xs) ≡ length xs
unfolding leading_zeros skip_zeros
length-skip_zeros [] = refl
length-skip_zeros (zero ∷ xs) = omega (arith, length-skip_zeros xs)
length-skip_zeros (suc x ∷ xs) = omega arith
