-- ===== src/Text/Utf8.antt =====
-- `String::from_utf8` and `&s[1..]` of Rust's standard library, on lists of bytes. A `String` is
-- the list of its bytes.
use stacks_encoding_native_j.Prelude.{ℕ, ◌-◌, ◌<◌, ◌≡◌, refl, List, [], ◌∷◌, ltb, leb}
use stacks_encoding_native_j.Prelude.{◌==◌, Bool, true, false, ◌&&◌, ◌||◌, Option, none, some}
use stacks_encoding_native_j.Prelude.{if◌then◌else◌, All, lt→ltb}

-- Between two characters, or inside one: how many continuation bytes follow the next byte, and
-- the range of the next byte.
pub data Utf8State : Type 0 where
  start : Utf8State
  inside : ℕ → ℕ → ℕ → Utf8State

abbrev between : ℕ → ℕ → ℕ → Bool
between lo hi b = leb lo b && leb b hi

-- The first byte of a character.
unfoldable pub utf8_lead : ℕ → Option Utf8State
utf8_lead b =
    if ltb b 0x80
    then some start
    else if between 0xc2 0xdf b
    then some (inside 0 0x80 0xbf)
    else if b == 0xe0
    then some (inside 1 0xa0 0xbf)
    else if b == 0xed
    then some (inside 1 0x80 0x9f)
    else if between 0xe1 0xef b
    then some (inside 1 0x80 0xbf)
    else if b == 0xf0
    then some (inside 2 0x90 0xbf)
    else if between 0xf1 0xf3 b
    then some (inside 2 0x80 0xbf)
    else if b == 0xf4
    then some (inside 2 0x80 0x8f)
    else none

-- The state behind one more byte, if the byte may stand there.
unfoldable pub utf8_next : Utf8State → ℕ → Option Utf8State
utf8_next start b = utf8_lead b
utf8_next (inside k lo hi) b =
    if between lo hi b then some (if k == 0 then start else inside (k - 1) 0x80 0xbf) else none

unfoldable pub is_utf8_from : Utf8State → List ℕ → Bool
is_utf8_from start [] = true
is_utf8_from (inside k lo hi) [] = false
is_utf8_from s (b ∷ bs) = elim (utf8_next s b) [ none ↦ false | some s' ↦ is_utf8_from s' bs ]

unfoldable pub is_utf8 : List ℕ → Bool
is_utf8 bs = is_utf8_from start bs

-- `String::from_utf8`
unfoldable pub from_utf8 : List ℕ → Option (List ℕ)
from_utf8 bs = if is_utf8 bs then some bs else none

-- Whether byte index 1 of a string with two bytes or more starts a character; `&s[1..]` panics
-- where it does not.
unfoldable pub is_boundary : ℕ → Bool
is_boundary b = ltb b 0x80 || leb 0xc0 b

pub utf8_next-ascii : (b : ℕ) → b < 128 → utf8_next start b ≡ some start
unfolding utf8_next utf8_lead
utf8_next-ascii b h = rw (lt→ltb b 128 h) refl

pub is_utf8_from-ascii : (bs : List ℕ) → All (λ b. b < 128) bs → is_utf8_from start bs ≡ true
unfolding is_utf8_from
is_utf8_from-ascii [] h = refl
is_utf8_from-ascii (b ∷ bs) h = rw (utf8_next-ascii b h.0, is_utf8_from) (is_utf8_from-ascii bs h.1)

-- ASCII text is valid, so that converting it to a `String` keeps it.
pub from_utf8-ascii : (bs : List ℕ) → All (λ b. b < 128) bs → from_utf8 bs ≡ some bs
unfolding from_utf8 is_utf8
from_utf8-ascii bs h = rw (is_utf8_from-ascii bs h) refl
