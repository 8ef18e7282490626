-- ===== src/Radix/Strip.antt =====
-- Numerals in an arbitrary base, and what stripping zeros does to them.
use stacks_encoding_native_j.Prelude.{
  ℕ, zero, suc, ◌+◌, ◌*◌, ◌≤◌, ◌<◌, ◌≡◌, refl, sym, ap, ◌∙◌, arith,
}
use stacks_encoding_native_j.Prelude.{List, [], ◌∷◌, ◌++◌, reverse, replicate, length, All}
use mathlib.Core.List.{reverse-cons, reverse-append, reverse-reverse}

-- The number that a list of digits writes in base `b`, least significant digit first.
unfoldable pub value : ℕ → List ℕ → ℕ
value b [] = 0
value b (d ∷ ds) = d + b * value b ds

abbrev pub Digits : ℕ → List ℕ → Type 0
Digits b = All (λ d. d < b)

abbrev pub zeros : ℕ → List ℕ
zeros n = replicate n 0

-- The zeros at the front, and the list without them.
unfoldable pub leading_zeros : List ℕ → ℕ
leading_zeros [] = 0
leading_zeros (zero ∷ ds) = suc (leading_zeros ds)
leading_zeros (suc d ∷ ds) = 0

unfoldable pub skip_zeros : List ℕ → List ℕ
skip_zeros [] = []
skip_zeros (zero ∷ ds) = skip_zeros ds
skip_zeros (suc d ∷ ds) = suc d ∷ ds

-- A digit in front of a stripped list, if it is not a zero that nothing follows.
unfoldable pub cons_stripped : ℕ → List ℕ → List ℕ
cons_stripped zero [] = []
cons_stripped zero (e ∷ es) = zero ∷ e ∷ es
cons_stripped (suc d) es = suc d ∷ es

-- The list without the zeros at its end.
unfoldable pub strip : List ℕ → List ℕ
strip [] = []
strip (d ∷ ds) = cons_stripped d (strip ds)

pub zeros-append-skip_zeros : (ds : List ℕ) → zeros (leading_zeros ds) ++ skip_zeros ds ≡ ds
unfolding leading_zeros skip_zeros
zeros-append-skip_zeros [] = refl
zeros-append-skip_zeros (zero ∷ ds) = ap (λ t. zero ∷ t) (zeros-append-skip_zeros ds)
zeros-append-skip_zeros (suc d ∷ ds) = refl

pub leading_zeros-skip_zeros : (ds : List ℕ) → leading_zeros (skip_zeros ds) ≡ 0
unfolding leading_zeros skip_zeros
leading_zeros-skip_zeros [] = refl
leading_zeros-skip_zeros (zero ∷ ds) = leading_zeros-skip_zeros ds
leading_zeros-skip_zeros (suc d ∷ ds) = refl

pub leading_zeros-zeros :
    (n : ℕ) (ds : List ℕ) → leading_zeros (zeros n ++ ds) ≡ n + leading_zeros ds
unfolding leading_zeros
leading_zeros-zeros zero ds = omega arith
leading_zeros-zeros (suc n) ds = omega (arith, leading_zeros-zeros n ds)

cons_stripped-append :
    (d e : ℕ) (ds : List ℕ) → cons_stripped d (ds ++ (e ∷ [])) ≡ d ∷ (ds ++ (e ∷ []))
unfolding cons_stripped
cons_stripped-append zero e [] = refl
cons_stripped-append zero e (f ∷ ds) = refl
cons_stripped-append (suc d) e ds = refl

skip_zeros-append_digit :
    (ds : List ℕ) (d : ℕ)
    → skip_zeros (ds ++ (d ∷ [])) ≡ reverse (cons_stripped d (reverse (skip_zeros ds)))
unfolding skip_zeros cons_stripped
skip_zeros-append_digit [] zero = refl
skip_zeros-append_digit [] (suc d) = refl
skip_zeros-append_digit (zero ∷ ds) d = skip_zeros-append_digit ds d
skip_zeros-append_digit (suc e ∷ ds) d = sym (
    ap (λ t. reverse (cons_stripped d t)) (reverse-cons (suc e) ds)
    ∙ ap reverse (cons_stripped-append d (suc e) (reverse ds))
    ∙ reverse-cons d (reverse ds ++ (suc e ∷ []))
    ∙ ap (λ t. t ++ (d ∷ [])) (reverse-append (reverse ds) (suc e ∷ []))
    ∙ ap (λ t. (suc e ∷ t) ++ (d ∷ [])) (reverse-reverse ds))

-- Stripping a list at its end is skipping the zeros of its reverse.
pub skip_zeros-reverse : (ds : List ℕ) → skip_zeros (reverse ds) ≡ reverse (strip ds)
unfolding strip
skip_zeros-reverse [] = unfold skip_zeros in refl
skip_zeros-reverse (d ∷ ds) =
    ap skip_zeros (reverse-cons d ds)
    ∙ skip_zeros-append_digit (reverse ds) d
    ∙ ap (λ t. reverse (cons_stripped d (reverse t))) (skip_zeros-reverse ds)
    ∙ ap (λ t. reverse (cons_stripped d t)) (reverse-reverse (strip ds))

pub Digits-skip_zeros : (b : ℕ) (ds : List ℕ) → Digits b ds → Digits b (skip_zeros ds)
unfolding skip_zeros
Digits-skip_zeros b [] h = h
Digits-skip_zeros b (zero ∷ ds) h = Digits-skip_zeros b ds h.1
Digits-skip_zeros b (suc d ∷ ds) h = h

value-cons_stripped : (b d : ℕ) (ds : List ℕ) → value b (cons_stripped d ds) ≡ d + b * value b ds
unfolding value cons_stripped
value-cons_stripped b zero [] = grind arith
value-cons_stripped b zero (e ∷ es) = refl
value-cons_stripped b (suc d) ds = refl

pub value-strip : (b : ℕ) (ds : List ℕ) → value b (strip ds) ≡ value b ds
unfolding strip
value-strip b [] = refl
value-strip b (d ∷ ds) =
    value-cons_stripped b d (strip ds)
    ∙ ap (λ t. d + b * t) (value-strip b ds)
    ∙ (unfold value in refl)

pub value-append_zeros : (b : ℕ) (ds : List ℕ) (n : ℕ) → value b (ds ++ zeros n) ≡ value b ds
unfolding value
value-append_zeros b [] zero = refl
value-append_zeros b [] (suc n) = rw (value-append_zeros b [] n) (grind arith)
value-append_zeros b (d ∷ ds) n = ap (λ t. d + b * t) (value-append_zeros b ds n)

pub length-cons_stripped : (d : ℕ) (ds : List ℕ) → length (cons_stripped d ds) ≤ suc (length ds)
unfolding cons_stripped
length-cons_stripped zero [] = omega arith
length-cons_stripped zero (e ∷ es) = omega arith
length-cons_stripped (suc d) es = omega arith
