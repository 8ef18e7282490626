-- ===== src/Wire/Ensures.antt =====
-- What every value that a reader returns satisfies, whatever the input.
use stacks_encoding_native_j.Prelude.{
  if◌then◌else◌, refl, Bool, true, false, ◌≡◌, subst, Outcome, ok, err, panic, hangs, ℕ, zero, suc,
  [], ◌∷◌, All,
}
use stacks_encoding_native_j.Prelude.Monad
use stacks_encoding_native_j.Wire.Cursor.{Cursor}
use stacks_encoding_native_j.Wire.Error.{DeserializeError}
use stacks_encoding_native_j.Wire.Reader.{Reader, pure, ◌>>=◌, ◌>>◌, fail, ensure, read_vec}

-- Every value that the call returns satisfies `P`.
abbrev pub Result {ℓ κ} :
    {A : Type ℓ} → (A → Type κ) → Outcome DeserializeError (A × Cursor) → Type κ
Result P (ok (a, c)) = P a
Result P (err e) = Unit
Result P panic = Unit
Result P hangs = Unit

pub record Ensures {ℓ κ} {A : Type ℓ} (P : A → Type κ) (p : Reader A) : Type κ where
  pub at_every : (c : Cursor) → Result P (p c)

module _ {ℓ κ} {A : Type ℓ} (P : A → Type κ) where
  pub Ensures-pure : (a : A) → P a → Ensures P (pure a)
  Ensures-pure a h = record { at_every = λ c. h }

  pub Ensures-fail : (e : DeserializeError) → Ensures P (fail e)
  Ensures-fail e = record { at_every = λ c. tt }

  Result-eq :
      (o : Outcome DeserializeError (A × Cursor)) (a : A) (c : Cursor)
      → o ≡ ok (a, c)
      → Result P o
      → P a
  Result-eq o a c e h = subst (Result P) e h

  pub Ensures-eq :
      (p : Reader A) (c : Cursor) (a : A) (c' : Cursor) → Ensures P p → p c ≡ ok (a, c') → P a
  Ensures-eq p c a c' h e = Result-eq (p c) a c' e (h.at_every c)

module _ {ℓ ℓ' κ μ} {A : Type ℓ} {B : Type ℓ'} (P : A → Type κ) (Q : B → Type μ) where
  Result-bind :
      (o : Outcome DeserializeError (A × Cursor)) (f : A → Reader B)
      → Result P o
      → ((a : A) → P a → Ensures Q (f a))
      → Result Q (Monad.◌>>=◌ o λ (a, c). f a c)
  Result-bind (ok (a, c)) f h k = (k a h).at_every c
  Result-bind (err e) f h k = tt
  Result-bind panic f h k = tt
  Result-bind hangs f h k = tt

  pub Ensures-bind :
      (p : Reader A) (f : A → Reader B)
      → Ensures P p
      → ((a : A) → P a → Ensures Q (f a))
      → Ensures Q (p >>= f)
  unfolding ◌>>=◌
  Ensures-bind p f h k = record { at_every = λ c. Result-bind (p c) f (h.at_every c) k }

Result-any {ℓ} : {A : Type ℓ} (o : Outcome DeserializeError (A × Cursor)) → Result (λ a. Unit {0}) o
Result-any (ok (a, c)) = tt
Result-any (err e) = tt
Result-any panic = tt
Result-any hangs = tt

-- Behind a read of any value.
pub Ensures-read {ℓ ℓ' μ} :
    {A : Type ℓ} {B : Type ℓ'} (Q : B → Type μ) (p : Reader A) (f : A → Reader B)
    → ((a : A) → Ensures Q (f a))
    → Ensures Q (p >>= f)
Ensures-read Q p f k =
    Ensures-bind (λ a. Unit {0}) Q p f (record { at_every = λ c. Result-any (p c) }) λ a h. k a

-- Behind a test that failed otherwise.
pub Ensures-ensure {ℓ μ} :
    {B : Type ℓ} (Q : B → Type μ) (t : Bool) (e : DeserializeError) (k : Reader B)
    → (t ≡ true → Ensures Q k)
    → Ensures Q (ensure t e >> k)
unfolding ◌>>◌
Ensures-ensure Q true e k h = record { at_every = λ c. (h refl).at_every c }
Ensures-ensure Q false e k h = record { at_every = λ c. tt }

pub Ensures-if {ℓ μ} :
    {B : Type ℓ} (Q : B → Type μ) (t : Bool) (p q : Reader B)
    → Ensures Q p
    → Ensures Q q
    → Ensures Q (if t then p else q)
Ensures-if Q true p q h k = h
Ensures-if Q false p q h k = k

pub Ensures-then {ℓ ℓ' μ} :
    {A : Type ℓ} {B : Type ℓ'} (Q : B → Type μ) (p : Reader A) (q : Reader B)
    → Ensures Q q
    → Ensures Q (p >> q)
unfolding ◌>>◌ ◌>>=◌
Ensures-then Q p q h = Ensures-read Q p (λ a. q) λ a. h

-- Behind a loop, of every value that it pushes.
pub Ensures-vec {ℓ κ} :
    {A : Type ℓ} (P : A → Type κ) (p : Reader A) (n : ℕ)
    → Ensures P p
    → Ensures (All P) (read_vec p n)
unfolding read_vec
Ensures-vec P p zero h = Ensures-pure (All P) [] tt
Ensures-vec P p (suc n) h = Ensures-bind P (All P) _ _ h λ x l.
    Ensures-bind (All P) (All P) _ _ (Ensures-vec P p n h)
      λ xs ls. Ensures-pure (All P) (x ∷ xs) (l, ls)
