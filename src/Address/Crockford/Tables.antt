-- ===== src/Address/Crockford/Tables.antt =====
-- The two tables of address/c32.rs, and how they relate.
use stacks_encoding_native_j.Prelude.{ℕ, ◌<◌, ◌≡◌, refl, arith, Option, none, some, ◌&&◌, ◌==◌}
use stacks_encoding_native_j.Prelude.{List, [], ◌∷◌, codes, get_elem?, get_or, length}
use stacks_encoding_native_j.Prelude.{holds_below, holds_below-at, Bool, true, false, ltb}
use stacks_encoding_native_j.Prelude.{==→eq, not, zero, suc, ◌≤◌, ◌-◌, ◌||◌, leb, if◌then◌else◌}
use native.Mathlib.Decide.{dec_lt}

unfoldable pub c32_characters : List ℕ
c32_characters = codes "0123456789ABCDEFGHJKMNPQRSTVWXYZ"

-- The digit that each ASCII code stands for.
unfoldable pub c32_characters_map : List (Option ℕ)
c32_characters_map =
    none
    ∷ none
    ∷ none
    ∷ none
    ∷ none
    ∷ none
    ∷ none
    ∷ none
    ∷ none
    ∷ none
    ∷ none
    ∷ none
    ∷ none
    ∷ none
    ∷ none
    ∷ none
    ∷ none
    ∷ none
    ∷ none
    ∷ none
    ∷ none
    ∷ none
    ∷ none
    ∷ none
    ∷ none
    ∷ none
    ∷ none
    ∷ none
    ∷ none
    ∷ none
    ∷ none
    ∷ none
    ∷ none
    ∷ none
    ∷ none
    ∷ none
    ∷ none
    ∷ none
    ∷ none
    ∷ none
    ∷ none
    ∷ none
    ∷ none
    ∷ none
    ∷ none
    ∷ none
    ∷ none
    ∷ none
    ∷ (some 0)
    ∷ (some 1)
    ∷ (some 2)
    ∷ (some 3)
    ∷ (some 4)
    ∷ (some 5)
    ∷ (some 6)
    ∷ (some 7)
    ∷ (some 8)
    ∷ (some 9)
    ∷ none
    ∷ none
    ∷ none
    ∷ none
    ∷ none
    ∷ none
    ∷ none
    ∷ (some 10)
    ∷ (some 11)
    ∷ (some 12)
    ∷ (some 13)
    ∷ (some 14)
    ∷ (some 15)
    ∷ (some 16)
    ∷ (some 17)
    ∷ (some 1)
    ∷ (some 18)
    ∷ (some 19)
    ∷ (some 1)
    ∷ (some 20)
    ∷ (some 21)
    ∷ (some 0)
    ∷ (some 22)
    ∷ (some 23)
    ∷ (some 24)
    ∷ (some 25)
    ∷ (some 26)
    ∷ none
    ∷ (some 27)
    ∷ (some 28)
    ∷ (some 29)
    ∷ (some 30)
    ∷ (some 31)
    ∷ none
    ∷ none
    ∷ none
    ∷ none
    ∷ none
    ∷ none
    ∷ (some 10)
    ∷ (some 11)
    ∷ (some 12)
    ∷ (some 13)
    ∷ (some 14)
    ∷ (some 15)
    ∷ (some 16)
    ∷ (some 17)
    ∷ (some 1)
    ∷ (some 18)
    ∷ (some 19)
    ∷ (some 1)
    ∷ (some 20)
    ∷ (some 21)
    ∷ (some 0)
    ∷ (some 22)
    ∷ (some 23)
    ∷ (some 24)
    ∷ (some 25)
    ∷ (some 26)
    ∷ none
    ∷ (some 27)
    ∷ (some 28)
    ∷ (some 29)
    ∷ (some 30)
    ∷ (some 31)
    ∷ none
    ∷ none
    ∷ none
    ∷ none
    ∷ none
    ∷ []

-- The character of a digit below 32.
unfoldable pub digit_char : ℕ → ℕ
unfolding c32_characters
digit_char d = get_or 0 c32_characters d

is_some_of : Option ℕ → ℕ → Bool
is_some_of none v = false
is_some_of (some w) v = w == v

is_some_of→eq : (o : Option ℕ) (v : ℕ) → is_some_of o v ≡ true → o ≡ some v
unfolding is_some_of
is_some_of→eq none v h = cc
is_some_of→eq (some w) v h = rw (==→eq w v h)

characters_table :
    holds_below 32 (λ d. is_some_of (get_elem? c32_characters d) (digit_char d)) ≡ true
unfolding holds_below is_some_of digit_char
characters_table = refl

pub c32_characters-digit_char : (d : ℕ) → d < 32 → get_elem? c32_characters d ≡ some (digit_char d)
c32_characters-digit_char d h = is_some_of→eq _ _ (
    holds_below-at 32 (λ e. is_some_of (get_elem? c32_characters e) (digit_char e)) d
      characters_table h)

-- The digit of a character, if it has one.
unfoldable pub c32_digit : ℕ → Option ℕ
c32_digit x = elim (get_elem? c32_characters_map x) [ none ↦ none | some digit ↦ digit ]

map_table : holds_below 32 (λ d. is_some_of (c32_digit (digit_char d)) d) ≡ true
unfolding holds_below is_some_of digit_char c32_digit c32_characters_map
map_table = refl

pub c32_digit-digit_char : (d : ℕ) → d < 32 → c32_digit (digit_char d) ≡ some d
c32_digit-digit_char d h =
    is_some_of→eq _ _
      (holds_below-at 32 (λ e. is_some_of (c32_digit (digit_char e)) e) d map_table h)

bounded : Option ℕ → Bool
bounded none = true
bounded (some d) = ltb d 32

bound_table : holds_below 128 (λ x. bounded (c32_digit x)) ≡ true
unfolding holds_below bounded c32_digit c32_characters_map
bound_table = refl

length_table : length c32_characters_map ≡ 128
unfolding c32_characters_map
length_table = refl

pub get_elem?_beyond {ℓ} :
    {A : Type ℓ} (xs : List A) (i : ℕ) → length xs ≤ i → get_elem? xs i ≡ none
get_elem?_beyond [] i h = refl
get_elem?_beyond (x ∷ xs) zero h = absurd (omega arith)
get_elem?_beyond (x ∷ xs) (suc i) h = get_elem?_beyond xs i (omega arith)

c32_digit_beyond : (x : ℕ) → 128 ≤ x → c32_digit x ≡ none
unfolding c32_digit
c32_digit_beyond x h =
    rw (get_elem?_beyond c32_characters_map x (omega (arith, length_table)), c32_digit) refl

bounded→lt : (o : Option ℕ) (d : ℕ) → bounded o ≡ true → o ≡ some d → d < 32
unfolding bounded
bounded→lt none d h e = cc
bounded→lt (some f) d h e = ground arith

-- Every digit that the table gives is below 32.
pub c32_digit_bounded : (x d : ℕ) → c32_digit x ≡ some d → d < 32
c32_digit_bounded x d e = elim (dec_lt x 128) [
  | yes p ↦
      bounded→lt (c32_digit x) d (holds_below-at 128 (λ y. bounded (c32_digit y)) x bound_table p) e
  | no p ↦ cc (e, c32_digit_beyond x (omega arith))
]

zero_table : holds_below 32 (λ d. not ((digit_char d == digit_char 0) && not (d == 0))) ≡ true
unfolding holds_below digit_char
zero_table = refl

ascii_table : holds_below 32 (λ d. ltb (digit_char d) 128) ≡ true
unfolding holds_below digit_char
ascii_table = refl

pub digit_char-ascii : (d : ℕ) → d < 32 → ltb (digit_char d) 128 ≡ true
digit_char-ascii d h = holds_below-at 32 (λ e. ltb (digit_char e) 128) d ascii_table h

-- A character in upper case.
abbrev upper : ℕ → ℕ
upper x = if leb b'a' x && leb x b'z' then x - 32 else x

-- The upper-case letters O, I and L, which are not in the alphabet, are read as 0, 1 and 1.
abbrev unambiguous : ℕ → ℕ
unambiguous x = if x == b'O' then b'0' else if x == b'I' || x == b'L' then b'1' else x

-- The spelling that the encoder would have chosen for a character.
unfoldable pub normalize : ℕ → ℕ
normalize x = unambiguous (upper x)

spells : Option ℕ → ℕ → Bool
spells none x = true
spells (some d) x = digit_char d == normalize x

spelling_table : holds_below 128 (λ x. spells (c32_digit x) x) ≡ true
unfolding holds_below spells normalize digit_char c32_digit c32_characters_map
spelling_table = refl

spells→eq : (o : Option ℕ) (x d : ℕ) → spells o x ≡ true → o ≡ some d → digit_char d ≡ normalize x
unfolding spells
spells→eq none x d h e = cc
spells→eq (some f) x d h e = ground (arith, ==→eq (digit_char f) (normalize x) h)

-- The digit of a character is written as the character's normal spelling.
pub digit_char-c32_digit : (x d : ℕ) → c32_digit x ≡ some d → digit_char d ≡ normalize x
digit_char-c32_digit x d e = elim (dec_lt x 128) [
  | yes p ↦
      spells→eq (c32_digit x) x d
        (holds_below-at 128 (λ y. spells (c32_digit y) y) x spelling_table p) e
  | no p ↦ cc (e, c32_digit_beyond x (omega arith))
]

-- Only the digit 0 is written as the first character.
pub digit_char-zero : (d : ℕ) → d < 32 → digit_char d ≡ digit_char 0 → d ≡ 0
digit_char-zero d h e = ground (
  arith,
  holds_below-at 32 (λ d. not ((digit_char d == digit_char 0) && not (d == 0))) d zero_table h,
)
