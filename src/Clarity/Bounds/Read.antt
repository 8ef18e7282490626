-- ===== src/Clarity/Bounds/Read.antt =====
-- The deserializer of clarity_value/deserialize.rs, behind the bounds of its values.
use stacks_encoding_native_j.Prelude.{
  ℕ, zero, suc, ◌+◌, ◌%◌, ◌≤◌, ◌≡◌, refl, arith, Bool, true, false, not, List, length, Option, none,
  some, ltb, leb, ok, length-take, leb→le, subst, sym, Bool-cases, inl, inr,
}
use stacks_encoding_native_j.Text.Lossy.{lossy_chars}
use stacks_encoding_native_j.Wire.Cursor.{Cursor}
use stacks_encoding_native_j.Wire.Reader.{
  Reader, pure, ◌>>=◌, ◌>>◌, converted, ensure_str, ok_or_str, read_exact,
}
use stacks_encoding_native_j.Prelude.{Outcome}
use stacks_encoding_native_j.Prelude.Monad
use stacks_encoding_native_j.Wire.Error.{DeserializeError, from_str}
use stacks_encoding_native_j.Wire.Ensures.{
  Result, Ensures, Ensures-read, Ensures-bind, Ensures-pure, Ensures-eq, Ensures-ensure,
}
use stacks_encoding_native_j.Wire.ByteOrder.{ByteOrder}
use stacks_encoding_native_j.Clarity.Types.{
  StandardPrincipalData, Value, ClarityValue, Items, Fields, ClarityName, max_value_size, insert,
  compare_keys, KeyOrder, new, new_with_bytes, to_string_utf8,
}
use stacks_encoding_native_j.Text.NonEmpty.{lossy_chars-IsNonEmpty}
use stacks_encoding_native_j.Clarity.Names.{read_standard_principal}
use stacks_encoding_native_j.Clarity.TypePrefix.{TypePrefix}
use stacks_encoding_native_j.Clarity.Serialize.{count_items, count_fields}
use stacks_encoding_native_j.Clarity.Deserialize.{
  read_size, read_items, read_fields, read_body, finish, inner_deserialize_read, deserialize,
}
use stacks_encoding_native_j.Clarity.Bounds.{IsBounded, IsBoundedOf, AreBounded, HasBounded}

Ensures-exact : (n : ℕ) → Ensures (λ bytes. length bytes ≡ n) (read_exact n)
unfolding read_exact
Ensures-exact n = record {
  at_every = λ c. elim (Bool-cases (leb n (length c.rest))) [
    | inl e ↦ rw e (length-take n c.rest (leb→le n (length c.rest) e))
    | inr e ↦ rw e tt
  ];
}

-- What fails with a plain string returns no value, here and with more behind it.
Result-converted {ℓ κ} :
    {A : Type ℓ} (P : A → Type κ) (o : Option DeserializeError) → Result P (converted o)
Result-converted P (some e) = tt
Result-converted P none = tt

Result-failed {ℓ κ} :
    {A : Type ℓ} (P : A → Type κ) (o : Option DeserializeError)
    (f : Unit {0} × Cursor → Outcome DeserializeError (A × Cursor))
    → Result P (Monad.◌>>=◌ (converted o) f)
Result-failed P (some e) f = tt
Result-failed P none f = tt

Ensures-ok_or_str {ℓ κ} :
    {A : Type ℓ} (P : A → Type κ) (o : Option A) → ((a : A) → P a) → Ensures P (ok_or_str o)
Ensures-ok_or_str P (some a) h = Ensures-pure P a (h a)
Ensures-ok_or_str P none h = record { at_every = λ c. Result-converted P (from_str 1) }

-- A test that fails with a plain string.
Ensures-ensure_str {ℓ μ} :
    {B : Type ℓ} (Q : B → Type μ) (t : Bool) (k : Reader B)
    → (t ≡ true → Ensures Q k)
    → Ensures Q (ensure_str t >> k)
unfolding ◌>>◌
Ensures-ensure_str Q true k h = record { at_every = λ c. (h refl).at_every c }
Ensures-ensure_str Q false k h = record { at_every = λ c. Result-failed Q (from_str 1) _ }

size-bounded : (len : ℕ) → not (ltb max_value_size len) ≡ true → len ≤ max_value_size
size-bounded len h = ground arith

Ensures-size : Ensures (λ len. len ≤ max_value_size) read_size
unfolding read_size
Ensures-size =
    Ensures-read (λ len. len ≤ max_value_size) _ _
      λ bytes.
        Ensures-ensure_str (λ len. len ≤ max_value_size) _ _
          λ h. Ensures-pure (λ len. len ≤ max_value_size) _ (size-bounded _ h)

count_fields-insert :
    (key : ClarityName) (v : ClarityValue) (fs : Fields)
    → count_fields (insert key v fs) ≤ suc (count_fields fs)
unfolding insert
count_fields-insert key v Fields.no_fields = omega arith
count_fields-insert key v (Fields.field k u fs) =
    elim (compare_keys key k)
      as (λ o.
        count_fields (elim o [
          | KeyOrder.before ↦ Fields.field key v (Fields.field k u fs)
          | KeyOrder.same ↦ Fields.field k v fs
          | KeyOrder.after ↦ Fields.field k u (insert key v fs)
        ])
        ≤ suc (suc (count_fields fs))) [
          | KeyOrder.before ↦ omega arith
          | KeyOrder.same ↦ omega arith
          | KeyOrder.after ↦ omega (arith, count_fields-insert key v fs)
        ]

module _ (w : Bool) (k : ℕ) where
  HasBounded-insert :
      (key : ClarityName) (v : ClarityValue) (fs : Fields)
      → IsBoundedOf w k v
      → HasBounded w k fs
      → HasBounded w k (insert key v fs)
  unfolding insert
  HasBounded-insert key v Fields.no_fields h l = (h, tt)
  HasBounded-insert key v (Fields.field j u fs) h l =
      elim (compare_keys key j)
        as (λ o. HasBounded w k (elim o [
          | KeyOrder.before ↦ Fields.field key v (Fields.field j u fs)
          | KeyOrder.same ↦ Fields.field j v fs
          | KeyOrder.after ↦ Fields.field j u (insert key v fs)
        ])) [
          | KeyOrder.before ↦ (h, l)
          | KeyOrder.same ↦ (h, l.1)
          | KeyOrder.after ↦ (l.0, HasBounded-insert key v fs h l.1)
        ]

  module _ (b : ByteOrder) (p : Reader ClarityValue) (h : Ensures (IsBoundedOf w k) p) where
    abbrev Listed : ℕ → Items → Type 0
    Listed n xs = (count_items xs ≡ n) × AreBounded w k xs

    Ensures-items : (n : ℕ) → Ensures (Listed n) (read_items p n)
    unfolding read_items
    Ensures-items zero = Ensures-pure (Listed zero) Items.no_items (refl, tt)
    Ensures-items (suc n) = Ensures-bind (IsBoundedOf w k) (Listed (suc n)) _ _ h λ v hv.
        Ensures-bind (Listed n) (Listed (suc n)) _ _ (Ensures-items n)
          λ xs hx. Ensures-pure (Listed (suc n)) _ (omega (arith, hx.0), (hv, hx.1))

    abbrev Mapped : ℕ → Fields → Type 0
    Mapped n fs = (count_fields fs ≤ n) × HasBounded w k fs

    Ensures-fields :
        (n m : ℕ) (fs : Fields) → Mapped m fs → Ensures (Mapped (m + n)) (read_fields b p n fs)
    unfolding read_fields
    Ensures-fields zero m fs l = Ensures-pure (Mapped (m + zero)) fs (omega (arith, l.0), l.1)
    Ensures-fields (suc n) m fs l = Ensures-read (Mapped (m + suc n)) _ _ λ key.
        Ensures-bind (IsBoundedOf w k) (Mapped (m + suc n)) _ _ h λ v hv.
          let step : m + suc n ≡ suc m + n = omega arith in
          subst (λ t. Ensures (Mapped t) (read_fields b p n (insert key v fs))) (sym step)
            (Ensures-fields n (suc m) (insert key v fs)
              (omega (arith, count_fields-insert key v fs, l.0), HasBounded-insert key v fs hv l.1))

    abbrev Body : Value → Type 0
    Body = IsBounded w k

    Ensures-principal :
        Ensures
          (λ (q : StandardPrincipalData). length q.hash_bytes ≡ 20)
          (read_standard_principal b)
    unfolding read_standard_principal
    Ensures-principal =
        let Q : StandardPrincipalData → Type 0 = λ q. length q.hash_bytes ≡ 20 in
        Ensures-read Q _ _ λ version.
          Ensures-bind (λ bytes. length bytes ≡ 20) Q _ _ (Ensures-exact 20)
            λ bytes l. Ensures-pure Q _ l

    -- Behind a value of one level more.
    Ensures-nested :
        (f : ClarityValue → Value)
        → ((v : ClarityValue) → IsBoundedOf w k v → IsBounded w k (f v))
        → Ensures Body (p >>= λ v. pure (f v))
    Ensures-nested f g =
        Ensures-bind (IsBoundedOf w k) Body _ _ h λ v l. Ensures-pure Body _ (g v l)

    -- Behind a size and that many bytes.
    Ensures-sized :
        (f : List ℕ → Value)
        → ((bytes : List ℕ) → length bytes ≤ max_value_size → IsBounded w k (f bytes))
        → Ensures Body (read_size >>= λ len. (read_exact len >>= λ bytes. pure (f bytes)))
    Ensures-sized f g =
        Ensures-bind (λ len. len ≤ max_value_size) Body _ _ Ensures-size
          λ len l.
            Ensures-bind (λ bytes. length bytes ≡ len) Body _ _ (Ensures-exact len)
              λ bytes e. Ensures-pure Body _ (g bytes (omega arith))

    Ensures-Body : (prefix : TypePrefix) → Ensures Body (read_body b p prefix)
    unfolding read_body to_string_utf8
    Ensures-Body TypePrefix.int = Ensures-read Body _ _ λ bytes. Ensures-pure Body _ tt
    Ensures-Body TypePrefix.uint = Ensures-read Body _ _ λ bytes. Ensures-pure Body _ tt
    Ensures-Body TypePrefix.buffer = Ensures-sized Value.buffer (λ bytes l. l)
    Ensures-Body TypePrefix.bool_true = Ensures-pure Body _ tt
    Ensures-Body TypePrefix.bool_false = Ensures-pure Body _ tt
    Ensures-Body TypePrefix.principal_standard =
        Ensures-bind (λ q. length q.hash_bytes ≡ 20) Body _ _ Ensures-principal
          λ q l. Ensures-pure Body _ l
    Ensures-Body TypePrefix.principal_contract =
        Ensures-bind (λ q. length q.hash_bytes ≡ 20) Body _ _ Ensures-principal
          λ q l. Ensures-read Body _ _ λ name. Ensures-pure Body _ l
    Ensures-Body TypePrefix.response_ok = Ensures-nested Value.response_ok (λ v l. l)
    Ensures-Body TypePrefix.response_err = Ensures-nested Value.response_err (λ v l. l)
    Ensures-Body TypePrefix.optional_none = Ensures-pure Body _ tt
    Ensures-Body TypePrefix.optional_some = Ensures-nested Value.optional_some (λ v l. l)
    Ensures-Body TypePrefix.list =
        Ensures-bind (λ len. len ≤ max_value_size) Body _ _ Ensures-size
          λ len l.
            Ensures-bind (Listed len) Body _ _ (Ensures-items len)
              λ xs hx. Ensures-pure Body _ (omega (arith, hx.0), hx.1)
    Ensures-Body TypePrefix.tuple =
        Ensures-bind (λ len. len ≤ max_value_size) Body _ _ Ensures-size
          λ len l.
            Ensures-bind (Mapped (0 + len)) Body _ _
              (Ensures-fields len 0 Fields.no_fields (omega arith, tt))
              λ fs hf. Ensures-pure Body _ (omega (arith, hf.0), hf.1)
    Ensures-Body TypePrefix.string_ascii = Ensures-sized Value.string_ascii (λ bytes l. l)
    Ensures-Body TypePrefix.string_utf8 =
        Ensures-sized (λ bytes. Value.string_utf8 (lossy_chars bytes))
          (λ bytes l. lossy_chars-IsNonEmpty bytes)

module _ (b : ByteOrder) where
  Ensures-finish :
      (w : Bool) (k start : ℕ) (v : Value)
      → IsBounded w k v
      → Ensures (IsBoundedOf w (suc k)) (finish b w start v)
  unfolding finish new new_with_bytes
  Ensures-finish true k start v h =
      Ensures-read (IsBoundedOf true (suc k)) _ _
        λ bytes. Ensures-pure (IsBoundedOf true (suc k)) _ (tt, h)
  Ensures-finish false k start v h = Ensures-pure (IsBoundedOf false (suc k)) _ (tt, h)

  -- Fuel and depth add up to 17 in every call.
  Ensures-inner :
      (w : Bool) (fuel depth : ℕ)
      → suc fuel + depth ≡ 17
      → Ensures (IsBoundedOf w fuel) (inner_deserialize_read b (suc fuel) depth w)
  unfolding inner_deserialize_read
  Ensures-inner w zero depth e =
      Ensures-ensure (IsBoundedOf w zero) _ _ _ λ h. absurd (ground arith)
  Ensures-inner w (suc fuel) depth e =
      let deeper : (depth + 1) % 256 ≡ suc depth = omega arith in
      Ensures-ensure (IsBoundedOf w (suc fuel)) _ _ _ λ h.
        Ensures-read (IsBoundedOf w (suc fuel)) _ _ λ start.
          Ensures-read (IsBoundedOf w (suc fuel)) _ _ λ header.
            Ensures-read (IsBoundedOf w (suc fuel)) _ _ λ prefix.
              Ensures-bind (IsBounded w fuel) (IsBoundedOf w (suc fuel)) _ _
                (Ensures-Body w fuel b _
                  (rw deeper (Ensures-inner w fuel (suc depth) (omega arith))) prefix)
                λ v l. Ensures-finish w fuel start v l

  pub Ensures-deserialize : (w : Bool) → Ensures (IsBoundedOf w 16) (deserialize b w)
  unfolding deserialize
  Ensures-deserialize w = Ensures-inner w 16 0 refl

  -- Every value that `deserialize` returns, with any implementation of the byte readers, is nested
  -- at most 16 deep, and at every depth its buffers, ASCII texts, lists and tuples have at most
  -- 1048576 entries, its principals have hashes of 20 bytes, its UTF-8 characters are not empty,
  -- and bytes are kept exactly if they were asked for.
  pub deserialize-IsBounded :
      (w : Bool) (v : ClarityValue) (c c' : Cursor)
      → deserialize b w c ≡ ok (v, c')
      → IsBoundedOf w 16 v
  deserialize-IsBounded w v c c' h =
      Ensures-eq (IsBoundedOf w 16) (deserialize b w) c v c' (Ensures-deserialize w) h
