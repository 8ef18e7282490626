-- ===== src/Clarity/Limits.antt =====
-- The limits of clarity_value/deserialize.rs: how deep values nest, and which prefixes are known.
use stacks_encoding_native_j.Prelude.Monad
use stacks_encoding_native_j.Prelude.{
  Outcome, subst, true, false, ltb, if◌then◌else◌, lt→ltb, le→ltb,
}
use stacks_encoding_native_j.Wire.Error.{from_str-eq-none}
use stacks_encoding_native_j.Clarity.Deserialize.{read_fields}
use stacks_encoding_native_j.Clarity.Deserialize.{read_items}
use stacks_encoding_native_j.Clarity.Deserialize.{read_size}
use stacks_encoding_native_j.Clarity.Names.{read_clarity_name}
use stacks_encoding_native_j.Wire.Reader.{read_exact}
use stacks_encoding_native_j.Wire.Reader.{◌>>=◌}
use stacks_encoding_native_j.Wire.Reader.{◌>>◌}
use stacks_encoding_native_j.Prelude.{ℕ, zero, suc, ◌+◌, ◌%◌, ◌≤◌, ◌<◌, ◌≡◌, refl, arith}
use stacks_encoding_native_j.Prelude.{List, [], ◌∷◌, ◌++◌, length, All, Bool, err, hangs}
use stacks_encoding_native_j.Prelude.{lt→leb, ◌⊎◌, inl, inr}
use stacks_encoding_native_j.Wire.Error.{DeserializeError, type_signature_too_deep}
use stacks_encoding_native_j.Wire.ByteOrder.{ByteOrder}
use stacks_encoding_native_j.Wire.Cursor.{Cursor}
use stacks_encoding_native_j.Wire.Laws.{at, Reads-exact}
use stacks_encoding_native_j.Clarity.TypePrefix.{from_u8, from_u8-none}
use stacks_encoding_native_j.Clarity.Deserialize.{inner_deserialize_read, deserialize, read_body}

-- The prefixes of a value that is around one other value.
abbrev pub IsWrapper : ℕ → Type 0
IsWrapper t = (t ≡ 7) ⊎ ((t ≡ 8) ⊎ (t ≡ 10))

lt_or_le : (m n : ℕ) → (m < n) ⊎ (n ≤ m)
lt_or_le m n = ground arith

-- A call that returns no value: with an error, or not at all.
abbrev stopped {ℓ} : {A : Type ℓ} → Bool → DeserializeError → Outcome DeserializeError A
stopped true e = err e
stopped false e = hangs

stopped_twice {ℓ κ μ} :
    {A : Type ℓ} {B : Type κ} {C : Type μ} (late : Bool) (e : DeserializeError)
    (f : A → Outcome DeserializeError B) (g : B → Outcome DeserializeError C)
    → Monad.◌>>=◌ (Monad.◌>>=◌ (stopped late e) f) g ≡ stopped late e
stopped_twice true e f g = refl
stopped_twice false e f g = refl

module _ (b : ByteOrder) (w : Bool) where
  -- A wrapper around what stops reading stops, at the level of the wrapper.
  inner-wrapped :
      (late : Bool) (e : DeserializeError) (fuel depth t : ℕ) (pre rest : List ℕ)
      → depth ≤ 15
      → IsWrapper t
      → inner_deserialize_read b fuel (depth + 1) w (at (pre ++ (t ∷ [])) rest) ≡ stopped late e
      → inner_deserialize_read b (suc fuel) depth w (at pre (t ∷ rest)) ≡ stopped late e
  unfolding inner_deserialize_read read_body from_u8 ◌>>◌ ◌>>=◌
  inner-wrapped late e fuel depth t pre rest h k deep =
      let deeper : (depth + 1) % 256 ≡ depth + 1 = omega arith in
      let at_prefix : (x : ℕ)
          → t ≡ x
          → inner_deserialize_read b fuel (depth + 1) w (at (pre ++ (x ∷ [])) rest)
            ≡ stopped late e =
        λ x q.
          subst
            (λ y.
              inner_deserialize_read b fuel (depth + 1) w (at (pre ++ (y ∷ [])) rest)
              ≡ stopped late e)
            q deep in
      elim k [
        | inl q ↦
            rw (q, lt→leb 16 depth (omega arith), Reads-exact 1 (7 ∷ []) refl pre rest, deeper)
              (rw (at_prefix 7 q) (stopped_twice late e _ _))
        | inr (inl q) ↦
            rw (q, lt→leb 16 depth (omega arith), Reads-exact 1 (8 ∷ []) refl pre rest, deeper)
              (rw (at_prefix 8 q) (stopped_twice late e _ _))
        | inr (inr q) ↦
            rw (q, lt→leb 16 depth (omega arith), Reads-exact 1 (10 ∷ []) refl pre rest, deeper)
              (rw (at_prefix 10 q) (stopped_twice late e _ _))
      ]

  inner-full :
      (fuel : ℕ) (c : Cursor)
      → inner_deserialize_read b (suc fuel) 16 w c ≡ err (type_signature_too_deep 16)
  unfolding inner_deserialize_read ◌>>◌
  inner-full fuel c = refl

  inner-too_deep :
      (fuel depth : ℕ) (wrappers pre rest : List ℕ)
      → All IsWrapper wrappers
      → depth ≤ 16
      → 16 ≤ depth + length wrappers
      → 17 ≤ fuel + depth
      → inner_deserialize_read b fuel depth w (at pre (wrappers ++ rest))
        ≡ err (type_signature_too_deep 16)
  inner-too_deep zero depth wrappers pre rest h l d f = absurd (omega arith)
  inner-too_deep (suc fuel) depth [] pre rest h l d f =
      let e : depth ≡ 16 = omega arith in rw e (inner-full fuel (at pre rest))
  inner-too_deep (suc fuel) depth (t ∷ ts) pre rest h l d f = elim (lt_or_le depth 16) [
    | inl shallow ↦
        inner-wrapped true (type_signature_too_deep 16) fuel depth t pre (ts ++ rest) (omega arith)
          h.0
          (inner-too_deep fuel (depth + 1) ts (pre ++ (t ∷ [])) rest h.1 (omega arith) (omega arith)
            (omega arith))
    | inr full ↦
        let e : depth ≡ 16 = omega arith in rw e (inner-full fuel (at pre (t ∷ (ts ++ rest))))
  ]

  inner-bad_prefix :
      (fuel depth : ℕ) (wrappers : List ℕ) (t : ℕ) (pre rest : List ℕ)
      → All IsWrapper wrappers
      → depth + length wrappers < 16
      → 17 ≤ fuel + depth
      → 15 ≤ t
      → inner_deserialize_read b fuel depth w (at pre (wrappers ++ (t ∷ rest))) ≡ hangs
  unfolding inner_deserialize_read ◌>>◌ ◌>>=◌
  inner-bad_prefix zero depth wrappers t pre rest h d f l = absurd (omega arith)
  inner-bad_prefix (suc fuel) depth [] t pre rest h d f l =
      rw
        (
          lt→leb 16 depth (omega arith),
          Reads-exact 1 (t ∷ []) refl pre rest,
          from_u8-none t l,
          from_str-eq-none 1,
        )
        refl
  inner-bad_prefix (suc fuel) depth (x ∷ xs) t pre rest h d f l =
      inner-wrapped false (type_signature_too_deep 16) fuel depth x pre (xs ++ (t ∷ rest))
        (omega arith) h.0
        (inner-bad_prefix fuel (depth + 1) xs t (pre ++ (x ∷ [])) rest h.1 (omega arith)
          (omega arith) l)

  -- Sixteen prefixes of `ok`, `err` or `some`, in any mixture and whatever follows them, make
  -- `deserialize` return the error for a depth of 16.
  pub deserialize-too_deep :
      (wrappers pre rest : List ℕ)
      → All IsWrapper wrappers
      → length wrappers ≡ 16
      → deserialize b w (at pre (wrappers ++ rest)) ≡ err (type_signature_too_deep 16)
  unfolding deserialize
  deserialize-too_deep wrappers pre rest h d =
      inner-too_deep 17 0 wrappers pre rest h (omega arith) (omega arith) (omega arith)

  -- A type prefix of 15 or more behind any mixture of prefixes of `ok`, `err` and `some`, at any
  -- place of the input: behind fewer than 16 of them `deserialize` never returns, since the
  -- conversion of its error's text calls itself, and behind 16 or more it returns the error for a
  -- depth of 16.
  pub deserialize-bad_prefix :
      (wrappers : List ℕ) (t : ℕ) (pre rest : List ℕ)
      → All IsWrapper wrappers
      → 15 ≤ t
      → deserialize b w (at pre (wrappers ++ (t ∷ rest)))
        ≡ (if ltb (length wrappers) 16 then hangs else err (type_signature_too_deep 16))
  unfolding deserialize
  deserialize-bad_prefix wrappers t pre rest h l = elim (lt_or_le (length wrappers) 16) [
    | inl few ↦
        rw (lt→ltb (length wrappers) 16 few)
          (inner-bad_prefix 17 0 wrappers t pre rest h (omega arith) (omega arith) l)
    | inr many ↦
        rw (le→ltb (length wrappers) 16 many)
          (inner-too_deep 17 0 wrappers pre (t ∷ rest) h (omega arith) (omega arith) (omega arith))
  ]

  -- Two amounts of fuel that both reach the limit, from a depth `d` levels above it.
  inner-more :
      (d depth f g : ℕ)
      → depth + d ≡ 16
      → d < f
      → d < g
      → inner_deserialize_read b f depth w ≡ inner_deserialize_read b g depth w
  unfolding inner_deserialize_read read_body ◌>>=◌ read_items read_fields read_size
      read_clarity_name read_exact ◌>>◌
  inner-more d depth zero g h hf hg = absurd (omega arith)
  inner-more d depth (suc f) zero h hf hg = absurd (omega arith)
  inner-more zero depth (suc f) (suc g) h hf hg = let e : depth ≡ 16 = omega arith in rw e refl
  inner-more (suc d) depth (suc f) (suc g) h hf hg =
      let deeper : (depth + 1) % 256 ≡ depth + 1 = omega arith in
      rw (deeper, inner-more d (depth + 1) f g (omega arith) (omega arith) (omega arith)) refl

  -- The fuel of `deserialize` is enough: on every input, more fuel gives the same result.
  pub deserialize-fuel :
      (fuel : ℕ) (c : Cursor) → inner_deserialize_read b (17 + fuel) 0 w c ≡ deserialize b w c
  unfolding deserialize
  deserialize-fuel fuel c =
      rw (inner-more 16 0 (17 + fuel) 17 refl (omega arith) (omega arith)) refl
