-- ===== src/Clarity/EncoderHex.antt =====
-- The hexadecimal text in the objects of clarity_value/neon_encoder.rs.
use stacks_encoding_native_j.Prelude.{
  ℕ, ◌≡◌, sym, ap, ◌∙◌, List, codes, Bool, true, false, Option, some, ok, >>=-eq-ok,
}
use stacks_encoding_native_j.Js.{JsObject, JsValue, Encoded, empty_object, string, get}
use stacks_encoding_native_j.Address.Crockford.Check.{c32_address}
use stacks_encoding_native_j.Clarity.Types.{
  Value, ClarityValue, StandardPrincipalData, clarity_value,
}
use stacks_encoding_native_j.Clarity.Repr.{encode_hex, repr_string}
use stacks_encoding_native_j.Clarity.Encoder.{
  decode_clarity_val, encode_head, encode_deep, encode_inner, encode_items, encode_fields,
  encode_principal,
}

abbrev pub hex_of : JsObject → Option JsValue
hex_of = get (codes "hex")

abbrev pub done : JsObject → Encoded
done obj = ok obj

pub done-eq : {a b : JsObject} → done a ≡ done b → a ≡ b
done-eq h = cc h

module _ (sha256 : List ℕ → List ℕ) (hex_encode : List ℕ → List ℕ) where
  encode_principal-hex :
      (p : StandardPrincipalData) (obj result : JsObject)
      → encode_principal sha256 hex_encode p obj ≡ ok result
      → hex_of result ≡ hex_of obj
  unfolding encode_principal
  encode_principal-hex p obj result h =
      let (address, m, made) = >>=-eq-ok (c32_address sha256 p.version p.hash_bytes) _ h in
      ap hex_of (sym (done-eq made))

  -- None of the properties of `deep` is called "hex".
  encode_deep-hex :
      (v : Value) (obj result : JsObject)
      → encode_deep sha256 hex_encode v obj ≡ ok result
      → hex_of result ≡ hex_of obj
  unfolding encode_deep
  encode_deep-hex (Value.int z) obj result h = ap hex_of (sym (done-eq h))
  encode_deep-hex (Value.uint n) obj result h = ap hex_of (sym (done-eq h))
  encode_deep-hex (Value.bool b) obj result h = ap hex_of (sym (done-eq h))
  encode_deep-hex (Value.buffer bytes) obj result h = ap hex_of (sym (done-eq h))
  encode_deep-hex (Value.string_ascii text) obj result h = ap hex_of (sym (done-eq h))
  encode_deep-hex (Value.string_utf8 chars) obj result h = ap hex_of (sym (done-eq h))
  encode_deep-hex Value.optional_none obj result h = ap hex_of (sym (done-eq h))
  encode_deep-hex (Value.principal_standard p) obj result h = encode_principal-hex p obj result h
  encode_deep-hex (Value.principal_contract p) obj result h =
      let (addressed, m, made) = >>=-eq-ok (encode_principal sha256 hex_encode p.issuer obj) _ h in
      ap hex_of (sym (done-eq made)) ∙ encode_principal-hex p.issuer obj addressed m
  encode_deep-hex (Value.list xs) obj result h =
      let (items, m, made) = >>=-eq-ok (encode_items sha256 hex_encode xs) _ h in
      ap hex_of (sym (done-eq made))
  encode_deep-hex (Value.tuple fs) obj result h =
      let (entries, m, made) = >>=-eq-ok (encode_fields sha256 hex_encode fs empty_object) _ h in
      ap hex_of (sym (done-eq made))
  encode_deep-hex (Value.optional_some v) obj result h =
      let (inner, m, made) = >>=-eq-ok (encode_inner sha256 hex_encode v) _ h in
      ap hex_of (sym (done-eq made))
  encode_deep-hex (Value.response_ok v) obj result h =
      let (inner, m, made) = >>=-eq-ok (encode_inner sha256 hex_encode v) _ h in
      ap hex_of (sym (done-eq made))
  encode_deep-hex (Value.response_err v) obj result h =
      let (inner, m, made) = >>=-eq-ok (encode_inner sha256 hex_encode v) _ h in
      ap hex_of (sym (done-eq made))

  abbrev hex_string : List ℕ → JsValue
  hex_string bytes = string (encode_hex sha256 hex_encode bytes)

  encode_head-hex :
      (v : Value) (bytes : List ℕ) (obj result : JsObject)
      → encode_head sha256 hex_encode v bytes obj ≡ ok result
      → hex_of result ≡ some (hex_string bytes)
  unfolding encode_head
  encode_head-hex v bytes obj result h =
      let (repr, m, made) = >>=-eq-ok (repr_string sha256 hex_encode v) _ h in
      ap hex_of (sym (done-eq made))

  pub decode_clarity_val-hex :
      (v : ClarityValue) (deep : Bool) (bytes : List ℕ) (obj result : JsObject)
      → decode_clarity_val sha256 hex_encode v deep bytes obj ≡ ok result
      → hex_of result ≡ some (hex_string bytes)
  unfolding decode_clarity_val
  decode_clarity_val-hex (clarity_value kept v) true bytes obj result h =
      let (headed, m, made) = >>=-eq-ok (encode_head sha256 hex_encode v bytes obj) _ h in
      encode_deep-hex v headed result made ∙ encode_head-hex v bytes obj headed m
  decode_clarity_val-hex (clarity_value kept v) false bytes obj result h =
      let (headed, m, made) = >>=-eq-ok (encode_head sha256 hex_encode v bytes obj) _ h in
      ap hex_of (sym (done-eq made)) ∙ encode_head-hex v bytes obj headed m
