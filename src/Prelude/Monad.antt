-- ===== src/Prelude/Monad.antt =====
-- What a call of the program comes to: a value, an error, a panic, or no return at all.
use mathlib.Core.Path.{◌≡◌, refl}
use mathlib.Core.Logic.{◌⊎◌, inl, inr}
use mathlib.Core.Bool.{Bool, true, false}
use mathlib.Core.Option.{Option, none, some}

-- `ok` and `err` are Rust's `Result`; `panic` is an unwound thread (a failed `unwrap`, an index out
-- of range), and `hangs` a call that never returns.
pub data Outcome {ℓ κ} (E : Type ℓ) (A : Type κ) : Type (ℓ ⊔ κ) where
  ok : A → Outcome E A
  err : E → Outcome E A
  panic : Outcome E A
  hangs : Outcome E A

infixl 5 ◌>>=◌ ◌>>◌
abbrev pub ◌>>=◌ {ℓ κ μ} :
    {E : Type ℓ} {A : Type κ} {B : Type μ} → Outcome E A → (A → Outcome E B) → Outcome E B
hangs >>= rest = hangs
panic >>= rest = panic
err failure >>= rest = err failure
ok value >>= rest = rest value

abbrev pub ◌>>◌ {ℓ μ} : {E : Type ℓ} {B : Type μ} → Outcome E (Unit {0}) → Outcome E B → Outcome E B
first >> rest = first >>= λ done. rest

abbrev pub guard {ℓ} : {E : Type ℓ} → Bool → E → Outcome E (Unit {0})
guard false failure = err failure
guard true failure = ok tt

-- Rust's `map_err`.
abbrev pub map_err {ℓ ℓ' κ} :
    {E : Type ℓ} {F : Type ℓ'} {A : Type κ} → (E → F) → Outcome E A → Outcome F A
map_err f (ok a) = ok a
map_err f (err e) = err (f e)
map_err f panic = panic
map_err f hangs = hangs

-- Rust's `unwrap` on a `Result`.
abbrev pub unwrap {ℓ ℓ' κ} : {E : Type ℓ} {F : Type ℓ'} {A : Type κ} → Outcome E A → Outcome F A
unwrap (ok a) = ok a
unwrap (err e) = panic
unwrap panic = panic
unwrap hangs = hangs

-- Rust's `ok_or` on an `Option`.
abbrev pub ok_or {ℓ κ} : {E : Type ℓ} {A : Type κ} → Option A → E → Outcome E A
ok_or none e = err e
ok_or (some a) e = ok a

-- Indexing, which panics out of range, given what a lookup found.
abbrev pub or_panic {ℓ κ} : {E : Type ℓ} {A : Type κ} → Option A → Outcome E A
or_panic none = panic
or_panic (some a) = ok a

-- Rust's `unwrap_or` on an `Option`.
abbrev pub unwrap_or {ℓ} : {A : Type ℓ} → Option A → A → A
unwrap_or none fallback = fallback
unwrap_or (some a) fallback = a

module _ {ℓ κ μ} {E : Type ℓ} {A : Type κ} {B : Type μ} where
  -- Inversion of a chain that returned a value.
  pub >>=-eq-ok :
      (first : Outcome E A) (rest : A → Outcome E B) {result : B}
      → (first >>= rest) ≡ ok result
      → (value : A) × (first ≡ ok value) × (rest value ≡ ok result)
  >>=-eq-ok hangs rest returned = cc
  >>=-eq-ok panic rest returned = cc
  >>=-eq-ok (err failure) rest returned = cc
  >>=-eq-ok (ok value) rest returned = (value, refl, returned)

  -- Inversion of a chain that never returned.
  pub >>=-eq-hangs :
      (first : Outcome E A) (rest : A → Outcome E B)
      → (first >>= rest) ≡ hangs
      → (first ≡ hangs) ⊎ ((value : A) × (first ≡ ok value) × (rest value ≡ hangs))
  >>=-eq-hangs hangs rest stuck = inl refl
  >>=-eq-hangs panic rest stuck = cc
  >>=-eq-hangs (err failure) rest stuck = cc
  >>=-eq-hangs (ok value) rest stuck = inr (value, refl, stuck)

module _ {ℓ κ μ ν} {E : Type ℓ} {A : Type κ} {B : Type μ} {C : Type ν} where
  -- Two steps whose composition is known, and a third behind them.
  pub >>=-chain :
      (m : Outcome E A) (f : A → Outcome E B) (g : B → Outcome E C) {b : B}
      → (m >>= f) ≡ ok b
      → (m >>= λ a. (f a >>= g)) ≡ g b
  >>=-chain (ok a) f g h = rw h
  >>=-chain (err e) f g h = cc
  >>=-chain panic f g h = cc
  >>=-chain hangs f g h = cc

pub guard-eq-ok {ℓ κ} :
    {E : Type ℓ} {B : Type κ} (t : Bool) (e : E) (m : Outcome E B) {b : B}
    → (guard t e >> m) ≡ ok b
    → (t ≡ true) × (m ≡ ok b)
guard-eq-ok true e m h = (refl, h)
guard-eq-ok false e m h = cc

pub unwrap-eq-ok {ℓ ℓ' κ} :
    {E : Type ℓ} {F : Type ℓ'} {A : Type κ} (m : Outcome E A) {a : A}
    → unwrap {F = F} m ≡ ok a
    → m ≡ ok a
unwrap-eq-ok (ok x) h = cc
unwrap-eq-ok (err e) h = cc
unwrap-eq-ok panic h = cc
unwrap-eq-ok hangs h = cc

pub or_panic-eq-ok {ℓ κ} :
    {E : Type ℓ} {A : Type κ} (o : Option A) {a : A} → or_panic {E = E} o ≡ ok a → o ≡ some a
or_panic-eq-ok none h = cc
or_panic-eq-ok (some x) h = cc

pub ok_or-eq-ok {ℓ κ} :
    {E : Type ℓ} {A : Type κ} (o : Option A) (e : E) {a : A} → ok_or o e ≡ ok a → o ≡ some a
ok_or-eq-ok none e h = cc
ok_or-eq-ok (some x) e h = cc

pub map_err-eq-ok {ℓ ℓ' κ} :
    {E : Type ℓ} {F : Type ℓ'} {A : Type κ} (f : E → F) (m : Outcome E A) {a : A}
    → map_err f m ≡ ok a
    → m ≡ ok a
map_err-eq-ok f (ok x) h = cc
map_err-eq-ok f (err e) h = cc
map_err-eq-ok f panic h = cc
map_err-eq-ok f hangs h = cc

pub Option-cases {ℓ} : {A : Type ℓ} (o : Option A) → (o ≡ none) ⊎ ((a : A) × (o ≡ some a))
Option-cases none = inl refl
Option-cases (some a) = inr (a, refl)

-- The call returns a value.
pub record Returns {ℓ κ} {E : Type ℓ} {A : Type κ} (call : Outcome E A) : Type (ℓ ⊔ κ) where
  pub result : A
  pub returned : call ≡ ok result

pub Returns-ok {ℓ κ} : {E : Type ℓ} {A : Type κ} (value : A) → Returns {E = E} (ok value)
Returns-ok value = record { result = value; returned = refl }

pub Returns-bind {ℓ κ μ} :
    {E : Type ℓ} {A : Type κ} {B : Type μ} (first : Outcome E A) (rest : A → Outcome E B)
    → Returns first
    → ((value : A) → Returns (rest value))
    → Returns (first >>= rest)
Returns-bind (ok value) rest r k = k value
Returns-bind (err failure) rest r k = absurd (cc r.returned)
Returns-bind panic rest r k = absurd (cc r.returned)
Returns-bind hangs rest r k = absurd (cc r.returned)

pub Returns-map_err {ℓ ℓ' κ} :
    {E : Type ℓ} {F : Type ℓ'} {A : Type κ} (f : E → F) (call : Outcome E A)
    → Returns call
    → Returns (map_err f call)
Returns-map_err f (ok value) r = Returns-ok value
Returns-map_err f (err failure) r = absurd (cc r.returned)
Returns-map_err f panic r = absurd (cc r.returned)
Returns-map_err f hangs r = absurd (cc r.returned)
