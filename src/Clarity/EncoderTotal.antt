-- ===== src/Clarity/EncoderTotal.antt =====
-- When the encoder of clarity_value/neon_encoder.rs builds an object.
use stacks_encoding_native_j.Prelude.{
  ℕ, zero, suc, ◌<◌, List, Bool, true, false, Option, none, some, Returns, Returns-ok, Returns-bind,
}
use stacks_encoding_native_j.Radix.{Digits}
use stacks_encoding_native_j.Js.{JsObject, empty_object}
use stacks_encoding_native_j.Address.Crockford.Check.{IsSha256, c32_address}
use stacks_encoding_native_j.Address.Crockford.RoundTrip.{c32_address-eq}
use stacks_encoding_native_j.Clarity.Types.{
  Value, ClarityValue, Items, Fields, StandardPrincipalData, clarity_value,
}
use stacks_encoding_native_j.Clarity.ReprTotal.{
  HasAddress, IsPrintable, IsPrintableOf, ArePrintable, HasPrintable, repr_string-ok,
}
use stacks_encoding_native_j.Clarity.Bounds.{IsBounded, IsBoundedOf, AreBounded, HasBounded}
use stacks_encoding_native_j.Clarity.Encoder.{
  decode_clarity_val, encode_head, encode_deep, encode_inner, encode_items, encode_fields,
  encode_principal,
}

-- All principals of a value have an address, at every depth.
abbrev mutual
  pub HasAddresses : Value → Type 0
  HasAddresses (Value.principal_standard p) = HasAddress p
  HasAddresses (Value.principal_contract p) = HasAddress p.issuer
  HasAddresses (Value.list xs) = HasItemAddresses xs
  HasAddresses (Value.tuple fs) = HasFieldAddresses fs
  HasAddresses (Value.optional_some v) = HasAddressesOf v
  HasAddresses (Value.response_ok v) = HasAddressesOf v
  HasAddresses (Value.response_err v) = HasAddressesOf v
  HasAddresses (Value.int z) = Unit
  HasAddresses (Value.uint n) = Unit
  HasAddresses (Value.bool b) = Unit
  HasAddresses (Value.buffer bytes) = Unit
  HasAddresses (Value.string_ascii text) = Unit
  HasAddresses (Value.string_utf8 chars) = Unit
  HasAddresses Value.optional_none = Unit

  pub HasAddressesOf : ClarityValue → Type 0
  HasAddressesOf (clarity_value bytes v) = HasAddresses v

  pub HasItemAddresses : Items → Type 0
  HasItemAddresses Items.no_items = Unit
  HasItemAddresses (Items.item v xs) = HasAddressesOf v × HasItemAddresses xs

  pub HasFieldAddresses : Fields → Type 0
  HasFieldAddresses Fields.no_fields = Unit
  HasFieldAddresses (Fields.field key v fs) = HasAddressesOf v × HasFieldAddresses fs

-- A value that was read can be printed if its principals have addresses.
mutual
  printable : (w : Bool) (k : ℕ) (v : Value) → IsBounded w k v → HasAddresses v → IsPrintable v
  printable w k (Value.principal_standard p) l h = h
  printable w k (Value.principal_contract p) l h = h
  printable w k (Value.string_utf8 chars) l h = l
  printable w k (Value.list xs) l h = printable_items w k xs l.1 h
  printable w k (Value.tuple fs) l h = printable_fields w k fs l.1 h
  printable w k (Value.optional_some v) l h = printable_of w k v l h
  printable w k (Value.response_ok v) l h = printable_of w k v l h
  printable w k (Value.response_err v) l h = printable_of w k v l h
  printable w k (Value.int z) l h = tt
  printable w k (Value.uint n) l h = tt
  printable w k (Value.bool b) l h = tt
  printable w k (Value.buffer bytes) l h = tt
  printable w k (Value.string_ascii text) l h = tt
  printable w k Value.optional_none l h = tt

  printable_of :
      (w : Bool) (k : ℕ) (v : ClarityValue) → IsBoundedOf w k v → HasAddressesOf v → IsPrintableOf v
  printable_of w zero (clarity_value bytes v) l h = absurd l
  printable_of w (suc k) (clarity_value bytes v) l h = printable w k v l.1 h

  printable_items :
      (w : Bool) (k : ℕ) (xs : Items) → AreBounded w k xs → HasItemAddresses xs → ArePrintable xs
  printable_items w k Items.no_items l h = tt
  printable_items w k (Items.item v xs) l h =
      (printable_of w k v l.0 h.0, printable_items w k xs l.1 h.1)

  printable_fields :
      (w : Bool) (k : ℕ) (fs : Fields) → HasBounded w k fs → HasFieldAddresses fs → HasPrintable fs
  printable_fields w k Fields.no_fields l h = tt
  printable_fields w k (Fields.field key v fs) l h =
      (printable_of w k v l.0 h.0, printable_fields w k fs l.1 h.1)

module _ (sha256 : List ℕ → List ℕ) (hex_encode : List ℕ → List ℕ) (h : IsSha256 sha256) where
  pub Returns-address :
      (version : ℕ) (hash : List ℕ)
      → version < 32
      → Digits 256 hash
      → Returns (c32_address sha256 version hash)
  Returns-address version hash v d = rw (c32_address-eq sha256 h version hash v d) (Returns-ok _)

  Returns-principal :
      (p : StandardPrincipalData) (obj : JsObject)
      → HasAddress p
      → Returns (encode_principal sha256 hex_encode p obj)
  unfolding encode_principal
  Returns-principal p obj a =
      Returns-bind _ _ (Returns-address p.version p.hash_bytes a.0 a.1) λ address. Returns-ok _

  Returns-head :
      (v : Value) (bytes : List ℕ) (obj : JsObject)
      → IsPrintable v
      → Returns (encode_head sha256 hex_encode v bytes obj)
  unfolding encode_head
  Returns-head v bytes obj a =
      let (text, printed) = repr_string-ok sha256 hex_encode h v a in
      Returns-bind _ _ (record { result = text; returned = printed }) λ repr. Returns-ok _

  mutual
    unfolding encode_deep

    Returns-deep :
        (k : ℕ) (v : Value) (obj : JsObject)
        → IsBounded true k v
        → HasAddresses v
        → Returns (encode_deep sha256 hex_encode v obj)
    Returns-deep k (Value.principal_standard p) obj l a = Returns-principal p obj a
    Returns-deep k (Value.principal_contract p) obj l a =
        Returns-bind _ _ (Returns-principal p.issuer obj a) λ addressed. Returns-ok _
    Returns-deep k (Value.list xs) obj l a =
        Returns-bind _ _ (Returns-items k xs l.1 a) λ items. Returns-ok _
    Returns-deep k (Value.tuple fs) obj l a =
        Returns-bind _ _ (Returns-fields k fs empty_object l.1 a) λ entries. Returns-ok _
    Returns-deep k (Value.optional_some v) obj l a =
        Returns-bind _ _ (Returns-inner k v l a) λ inner. Returns-ok _
    Returns-deep k (Value.response_ok v) obj l a =
        Returns-bind _ _ (Returns-inner k v l a) λ inner. Returns-ok _
    Returns-deep k (Value.response_err v) obj l a =
        Returns-bind _ _ (Returns-inner k v l a) λ inner. Returns-ok _
    Returns-deep k (Value.int z) obj l a = Returns-ok _
    Returns-deep k (Value.uint n) obj l a = Returns-ok _
    Returns-deep k (Value.bool b) obj l a = Returns-ok _
    Returns-deep k (Value.buffer bytes) obj l a = Returns-ok _
    Returns-deep k (Value.string_ascii text) obj l a = Returns-ok _
    Returns-deep k (Value.string_utf8 chars) obj l a = Returns-ok _
    Returns-deep k Value.optional_none obj l a = Returns-ok _

    Returns-inner :
        (k : ℕ) (v : ClarityValue)
        → IsBoundedOf true k v
        → HasAddressesOf v
        → Returns (encode_inner sha256 hex_encode v)
    Returns-inner zero (clarity_value bytes v) l a = absurd l
    Returns-inner (suc k) (clarity_value none v) l a = absurd l.0
    Returns-inner (suc k) (clarity_value (some bytes) v) l a =
        Returns-bind _ _ (Returns-head v bytes empty_object (printable true k v l.1 a))
          λ headed. Returns-deep k v headed l.1 a

    Returns-items :
        (k : ℕ) (xs : Items)
        → AreBounded true k xs
        → HasItemAddresses xs
        → Returns (encode_items sha256 hex_encode xs)
    Returns-items k Items.no_items l a = Returns-ok _
    Returns-items k (Items.item v xs) l a =
        Returns-bind _ _ (Returns-inner k v l.0 a.0)
          λ first. Returns-bind _ _ (Returns-items k xs l.1 a.1) λ rest. Returns-ok _

    Returns-fields :
        (k : ℕ) (fs : Fields) (obj : JsObject)
        → HasBounded true k fs
        → HasFieldAddresses fs
        → Returns (encode_fields sha256 hex_encode fs obj)
    Returns-fields k Fields.no_fields obj l a = Returns-ok _
    Returns-fields k (Fields.field key v fs) obj l a =
        Returns-bind _ _ (Returns-inner k v l.0 a.0) λ first. Returns-fields k fs _ l.1 a.1

  -- Without `deep`, what lies inside is only printed.
  pub Returns-shallow :
      (w : Bool) (k : ℕ) (kept : Option (List ℕ)) (v : Value) (bytes : List ℕ) (obj : JsObject)
      → IsBounded w k v
      → HasAddresses v
      → Returns (decode_clarity_val sha256 hex_encode (clarity_value kept v) false bytes obj)
  unfolding decode_clarity_val
  Returns-shallow w k kept v bytes obj l a =
      Returns-bind _ _ (Returns-head v bytes obj (printable w k v l a)) λ headed. Returns-ok headed

  pub Returns-decode_clarity_val :
      (deep : Bool) (k : ℕ) (v : ClarityValue) (bytes : List ℕ) (obj : JsObject)
      → IsBoundedOf deep k v
      → HasAddressesOf v
      → Returns (decode_clarity_val sha256 hex_encode v deep bytes obj)
  unfolding decode_clarity_val
  Returns-decode_clarity_val false zero (clarity_value kept v) bytes obj l a = absurd l
  Returns-decode_clarity_val false (suc k) (clarity_value kept v) bytes obj l a =
      Returns-bind _ _ (Returns-head v bytes obj (printable false k v l.1 a))
        λ headed. Returns-ok headed
  Returns-decode_clarity_val true zero (clarity_value kept v) bytes obj l a = absurd l
  Returns-decode_clarity_val true (suc k) (clarity_value kept v) bytes obj l a =
      Returns-bind _ _ (Returns-head v bytes obj (printable true k v l.1 a))
        λ headed. Returns-deep k v headed l.1 a
