-- ===== src/Clarity/ReprTotal.antt =====
-- When the printer of src/clarity_value/types.rs succeeds.
use stacks_encoding_native_j.Prelude.{
  ℕ, ◌<◌, ◌≡◌, arith, List, [], ◌∷◌, length, All, ltb, ok, Bool-cases, inl, inr,
}
use stacks_encoding_native_j.Prelude.{Returns, Returns-ok, Returns-bind}
use stacks_encoding_native_j.Radix.{Digits}
use stacks_encoding_native_j.Address.Crockford.Check.{IsSha256}
use stacks_encoding_native_j.Address.Crockford.RoundTrip.{c32_address-eq}
use stacks_encoding_native_j.Clarity.Types.{
  Value, ClarityValue, Items, Fields, StandardPrincipalData, clarity_value,
}
use stacks_encoding_native_j.Clarity.Repr.{
  repr_string, repr_of, repr_items, repr_fields, show_principal, show_char, show_chars,
}

-- A version that an address can have, and a hash of bytes.
abbrev pub HasAddress : StandardPrincipalData → Type 0
HasAddress p = (p.version < 32) × Digits 256 p.hash_bytes

-- All principals of a value have an address, and no character is empty.
abbrev mutual
  pub IsPrintable : Value → Type 0
  IsPrintable (Value.principal_standard p) = HasAddress p
  IsPrintable (Value.principal_contract p) = HasAddress p.issuer
  IsPrintable (Value.string_utf8 chars) = All (λ char. 0 < length char) chars
  IsPrintable (Value.list xs) = ArePrintable xs
  IsPrintable (Value.tuple fs) = HasPrintable fs
  IsPrintable (Value.optional_some v) = IsPrintableOf v
  IsPrintable (Value.response_ok v) = IsPrintableOf v
  IsPrintable (Value.response_err v) = IsPrintableOf v
  IsPrintable (Value.int z) = Unit
  IsPrintable (Value.uint n) = Unit
  IsPrintable (Value.bool b) = Unit
  IsPrintable (Value.buffer bytes) = Unit
  IsPrintable (Value.string_ascii text) = Unit
  IsPrintable Value.optional_none = Unit

  pub IsPrintableOf : ClarityValue → Type 0
  IsPrintableOf (clarity_value bytes v) = IsPrintable v

  pub ArePrintable : Items → Type 0
  ArePrintable Items.no_items = Unit
  ArePrintable (Items.item v xs) = IsPrintableOf v × ArePrintable xs

  pub HasPrintable : Fields → Type 0
  HasPrintable Fields.no_fields = Unit
  HasPrintable (Fields.field key v fs) = IsPrintableOf v × HasPrintable fs

module _ (sha256 : List ℕ → List ℕ) (hex_encode : List ℕ → List ℕ) (h : IsSha256 sha256) where
  Returns-principal :
      (p : StandardPrincipalData) → HasAddress p → Returns (show_principal sha256 hex_encode p)
  unfolding show_principal
  Returns-principal p a = rw (c32_address-eq sha256 h p.version p.hash_bytes a.0 a.1) (Returns-ok _)

  Returns-char : (char : List ℕ) → 0 < length char → Returns (show_char sha256 hex_encode char)
  unfolding show_char
  Returns-char [] k = absurd (omega arith)
  Returns-char (c ∷ char) k = elim (Bool-cases (ltb 1 (length (c ∷ char)))) [
    | inl e ↦ rw e (Returns-ok _)
    | inr e ↦ rw e (Returns-ok _)
  ]

  Returns-chars :
      (chars : List (List ℕ))
      → All (λ char. 0 < length char) chars
      → Returns (show_chars sha256 hex_encode chars)
  unfolding show_chars
  Returns-chars [] k = Returns-ok []
  Returns-chars (char ∷ chars) (k, ks) =
      Returns-bind _ _ (Returns-char char k)
        λ first. Returns-bind _ _ (Returns-chars chars ks) λ rest. Returns-ok _

  mutual
    unfolding repr_string

    repr_string-Returns : (v : Value) → IsPrintable v → Returns (repr_string sha256 hex_encode v)
    repr_string-Returns (Value.principal_standard p) k =
        Returns-bind _ _ (Returns-principal p k) λ address. Returns-ok _
    repr_string-Returns (Value.principal_contract p) k =
        Returns-bind _ _ (Returns-principal p.issuer k) λ address. Returns-ok _
    repr_string-Returns (Value.string_utf8 chars) k =
        Returns-bind _ _ (Returns-chars chars k) λ text. Returns-ok _
    repr_string-Returns (Value.list xs) k =
        Returns-bind _ _ (Returns-items xs k) λ text. Returns-ok _
    repr_string-Returns (Value.tuple fs) k =
        Returns-bind _ _ (Returns-fields fs k) λ text. Returns-ok _
    repr_string-Returns (Value.optional_some v) k =
        Returns-bind _ _ (Returns-of v k) λ text. Returns-ok _
    repr_string-Returns (Value.response_ok v) k =
        Returns-bind _ _ (Returns-of v k) λ text. Returns-ok _
    repr_string-Returns (Value.response_err v) k =
        Returns-bind _ _ (Returns-of v k) λ text. Returns-ok _
    repr_string-Returns (Value.int z) k = Returns-ok _
    repr_string-Returns (Value.uint n) k = Returns-ok _
    repr_string-Returns (Value.bool b) k = Returns-ok _
    repr_string-Returns (Value.buffer bytes) k = Returns-ok _
    repr_string-Returns (Value.string_ascii text) k = Returns-ok _
    repr_string-Returns Value.optional_none k = Returns-ok _

    Returns-of : (v : ClarityValue) → IsPrintableOf v → Returns (repr_of sha256 hex_encode v)
    Returns-of (clarity_value bytes v) k = repr_string-Returns v k

    Returns-items : (xs : Items) → ArePrintable xs → Returns (repr_items sha256 hex_encode xs)
    Returns-items Items.no_items k = Returns-ok []
    Returns-items (Items.item v xs) k =
        Returns-bind _ _ (Returns-of v k.0)
          λ first. Returns-bind _ _ (Returns-items xs k.1) λ rest. Returns-ok _

    Returns-fields : (fs : Fields) → HasPrintable fs → Returns (repr_fields sha256 hex_encode fs)
    Returns-fields Fields.no_fields k = Returns-ok []
    Returns-fields (Fields.field key v fs) k =
        Returns-bind _ _ (Returns-of v k.0)
          λ first. Returns-bind _ _ (Returns-fields fs k.1) λ rest. Returns-ok _

  -- For a hash function with digests of 32 bytes, `repr_string` returns a text for every value
  -- whose principals have a version below 32 and a hash of bytes, and whose UTF-8 characters are
  -- not empty, at every depth.
  pub repr_string-ok :
      (v : Value) → IsPrintable v → (text : List ℕ) × (repr_string sha256 hex_encode v ≡ ok text)
  repr_string-ok v k = let printed = repr_string-Returns v k in (printed.result, printed.returned)
