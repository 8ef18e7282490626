-- ===== src/Transaction/Multisig.antt =====
-- What the checks of a multisig spending condition, in stacks_tx/deserialize.rs, let through.
use stacks_encoding_native_j.Wire.Reader.{◌>>=◌, ◌>>◌}
use stacks_encoding_native_j.Prelude.{
  if◌then◌else◌, ℕ, suc, ◌+◌, ◌^◌, ◌<◌, ◌≡◌, refl, arith, Bool, true, false, not, ◌&&◌, ◌==◌, ==→eq,
}
use stacks_encoding_native_j.Prelude.{
  List, [], ◌∷◌, Bool-cases, ok, lt→ltb, inl, inr, none, some, le→ltb, le→leb, lt→leb, ◌||◌, ◌≤◌,
  ◌⊎◌, leb, err, Outcome,
}
use stacks_encoding_native_j.Wire.Error.{
  DeserializeError, too_many_signatures, wrong_signature_count, expected_compressed_keys,
}
use stacks_encoding_native_j.Wire.Cursor.{Cursor}
use stacks_encoding_native_j.Wire.Ensures.{Ensures, Result}
use stacks_encoding_native_j.Transaction.Types.{
  TransactionAuthField, MultisigSpendingCondition, public_key, signature,
}
use stacks_encoding_native_j.Transaction.Auth.{
  count_fields, checked_succ, check_multisig, is_compressed, is_p2wsh,
}

-- The number of signatures among the fields.
abbrev pub signatures : List TransactionAuthField → ℕ
signatures [] = 0
signatures (signature e s ∷ fields) = suc (signatures fields)
signatures (public_key k ∷ fields) = signatures fields

-- Whether a key or the key of a signature is uncompressed.
abbrev pub any_uncompressed : List TransactionAuthField → Bool
any_uncompressed [] = false
any_uncompressed (signature e s ∷ fields) =
    if is_compressed e then any_uncompressed fields else true
any_uncompressed (public_key k ∷ fields) = if k.is_compressed then any_uncompressed fields else true

or_false : (u : Bool) → (u || false) ≡ u
or_false true = refl
or_false false = refl

or_if : (k u r : Bool) → ((if k then u else true) || r) ≡ (u || (if k then r else true))
or_if true u r = refl
or_if false true r = refl
or_if false false r = refl

lt_or_le : (a b : ℕ) → (a < b) ⊎ (b ≤ a)
lt_or_le a b = ground arith

checked_succ-fits : (n : ℕ) → n + 1 < 2 ^ 16 → checked_succ n ≡ some (n + 1)
unfolding checked_succ
checked_succ-fits n h = rw (lt→ltb (n + 1) (2 ^ 16) h) refl

checked_succ-none : (n : ℕ) → 2 ^ 16 ≤ n + 1 → checked_succ n ≡ none
unfolding checked_succ
checked_succ-none n h = rw (le→ltb (n + 1) (2 ^ 16) h) refl

-- The loop counts, and remembers an uncompressed key, if the count stays a `u16`.
count_fields-eq :
    (fields : List TransactionAuthField) (n : ℕ) (u : Bool) (c : Cursor)
    → n + signatures fields < 2 ^ 16
    → count_fields fields n u c ≡ ok ((n + signatures fields, u || any_uncompressed fields), c)
unfolding count_fields ◌>>=◌ is_compressed
count_fields-eq [] n u c h = let e : n + 0 ≡ n = omega arith in rw (or_false u, e) refl
count_fields-eq (signature e s ∷ fields) n u c h =
    let e' : n + 1 + signatures fields ≡ n + suc (signatures fields) = omega arith in
    rw
      (
        checked_succ-fits n (omega arith),
        count_fields-eq fields (n + 1) (if is_compressed e then u else true) c (omega arith),
        e',
        or_if (is_compressed e) u (any_uncompressed fields),
      )
      refl
count_fields-eq (public_key k ∷ fields) n u c h =
    rw
      (
        count_fields-eq fields n (if k.is_compressed then u else true) c h,
        or_if k.is_compressed u (any_uncompressed fields),
      )
      refl

count_fields-too_many :
    (fields : List TransactionAuthField) (n : ℕ) (u : Bool) (c : Cursor)
    → n < 2 ^ 16
    → 2 ^ 16 ≤ n + signatures fields
    → count_fields fields n u c ≡ err too_many_signatures
unfolding count_fields ◌>>=◌
count_fields-too_many [] n u c l h = absurd (omega arith)
count_fields-too_many (public_key k ∷ fields) n u c l h =
    count_fields-too_many fields n (if k.is_compressed then u else true) c l h
count_fields-too_many (signature e s ∷ fields) n u c l h = elim (lt_or_le (n + 1) (2 ^ 16)) [
  | inl fits ↦
      rw
        (
          checked_succ-fits n fits,
          count_fields-too_many fields (n + 1) (if is_compressed e then u else true) c fits
              (omega arith),
        )
        refl
  | inr full ↦ rw (checked_succ-none n full) refl
]

-- What the checks come to, from the fields as a whole.
abbrev pub verdict :
    MultisigSpendingCondition
    → Cursor
    → Outcome DeserializeError (MultisigSpendingCondition × Cursor)
verdict cond c =
    if leb (2 ^ 16) (signatures cond.fields)
    then err too_many_signatures
    else if not (signatures cond.fields == cond.signatures_required)
    then err (wrong_signature_count (signatures cond.fields) cond.signatures_required)
    else if any_uncompressed cond.fields && is_p2wsh cond.hash_mode
    then err expected_compressed_keys
    else ok (cond, c)

-- The counting loop and the checks of a multisig condition come to a verdict on the fields as a
-- whole: an error for 65536 signatures or more, else an error for a number of signatures other than
-- the required one, else an error for an uncompressed key behind p2wsh, else the condition.
pub check_multisig-eq :
    (cond : MultisigSpendingCondition) (c : Cursor) → check_multisig cond c ≡ verdict cond c
unfolding check_multisig ◌>>=◌ ◌>>◌
check_multisig-eq cond c = elim (lt_or_le (signatures cond.fields) (2 ^ 16)) [
  | inl fits ↦
      let none_yet : 0 + signatures cond.fields ≡ signatures cond.fields = omega arith in
      rw
        (
          lt→leb (2 ^ 16) (signatures cond.fields) fits,
          count_fields-eq cond.fields 0 false c (omega arith),
          none_yet,
        )
        (ground arith)
  | inr full ↦
      rw
        (
          le→leb (2 ^ 16) (signatures cond.fields) full,
          count_fields-too_many cond.fields 0 false c (omega arith) (omega arith),
        )
        refl
]

-- The number of signatures is the one required, and behind p2wsh all keys are compressed.
abbrev pub IsMultisig : MultisigSpendingCondition → Type 0
IsMultisig cond =
    (signatures cond.fields ≡ cond.signatures_required)
    × ((any_uncompressed cond.fields && is_p2wsh cond.hash_mode) ≡ false)

verdict-Result :
    (cond : MultisigSpendingCondition) (c : Cursor) → Result IsMultisig (verdict cond c)
verdict-Result cond c =
    let n = signatures cond.fields in
    elim (Bool-cases (leb (2 ^ 16) n)) [
      | inl e ↦ rw e tt
      | inr e ↦ elim (Bool-cases (n == cond.signatures_required)) [
        | inr f ↦ rw (e, f) tt
        | inl f ↦ elim (Bool-cases (any_uncompressed cond.fields && is_p2wsh cond.hash_mode)) [
          | inl g ↦ rw (e, f, g) tt
          | inr g ↦ rw (e, f, g) (==→eq n cond.signatures_required f, g)
        ]
      ]
    ]

pub check_multisig-Ensures :
    (cond : MultisigSpendingCondition) → Ensures IsMultisig (check_multisig cond)
check_multisig-Ensures cond = record {
  at_every = λ c. rw (check_multisig-eq cond c) (verdict-Result cond c);
}
