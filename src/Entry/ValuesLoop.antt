-- ===== src/Entry/ValuesLoop.antt =====
-- The loop of `decode_clarity_value_array` in src/clarity_value/mod.rs.
use stacks_encoding_native_j.Prelude.{
  ℕ, suc, ◌<◌, ◌≡◌, refl, sym, ap, ◌∙◌, arith, subst, List, ◌++◌, length, length-append, drop,
  drop-append, le→leb, Bool, Option, some, lt→ltb, ok, >>=-eq-ok, map_err, map_err-eq-ok,
}
use stacks_encoding_native_j.Wire.Cursor.{Cursor, position}
use stacks_encoding_native_j.Wire.Reader.{slice_from}
use stacks_encoding_native_j.Wire.ByteOrder.{ByteOrder, IsByteOrder, big_endian, for_byte_order}
use stacks_encoding_native_j.Wire.Frames.{Advances}
use stacks_encoding_native_j.Wire.Consumes.{Consumes-eq}
use stacks_encoding_native_j.Js.{JsValue, JsObject, JsItems, object, array, string, empty_object}
use stacks_encoding_native_j.Clarity.Deserialize.{deserialize}
use stacks_encoding_native_j.Clarity.Frames.{Consumes-deserialize}
use stacks_encoding_native_j.Clarity.Repr.{encode_hex}
use stacks_encoding_native_j.Clarity.Encoder.{decode_clarity_val}
use stacks_encoding_native_j.Clarity.EncoderHex.{hex_of, decode_clarity_val-hex}
use stacks_encoding_native_j.Entry.Arguments.{
  JsArgument, deserializing, no_address, cursor_new, arg_bytes,
}
use stacks_encoding_native_j.Entry.Loop.Ends.{
  Split, Took, read_while-Split, passed, passed-eq, array-eq,
}
use stacks_encoding_native_j.Entry.Values.{
  next_value, read_values, decode_clarity_value_array, deep_flag,
}

slice_from-Advances :
    (c d e : Cursor) (xs bytes : List ℕ)
    → d.consumed ≡ c.consumed ++ xs
    → slice_from (position c) d ≡ ok (bytes, e)
    → (bytes ≡ xs) × (e ≡ d)
slice_from-Advances c d e xs bytes p h =
    let known : slice_from (position c) d ≡ ok (xs, d) =
      unfold slice_from in
      unfold position in
      rw
        (
          le→leb (length c.consumed) (length d.consumed)
              (omega (arith, ap length p, length-append c.consumed xs)),
          p,
          drop-append c.consumed xs,
        )
        refl in
    let both = sym known ∙ h in (cc both, cc both)

module _ (sha256 : List ℕ → List ℕ) (hex_encode : List ℕ → List ℕ)
    (hex_decode : List ℕ → Option (List ℕ)) where
  -- An object whose property "hex" is the text of some bytes.
  abbrev pub IsHexOf : List ℕ → JsValue → Type 0
  IsHexOf xs (object obj) = hex_of obj ≡ some (string (encode_hex sha256 hex_encode xs))
  IsHexOf xs _ = ⊥

  Took-at :
      (c d e c' : Cursor) (bytes : List ℕ) (obj : JsObject) (v : JsValue)
      → Advances c d
      → length d.rest < length c.rest
      → slice_from (position c) d ≡ ok (bytes, e)
      → hex_of obj ≡ some (string (encode_hex sha256 hex_encode bytes))
      → passed (object obj) e ≡ passed v c'
      → Took IsHexOf c c' v
  Took-at c d e c' bytes obj v (xs, p, q) l s x made =
      let (same_bytes, same_cursor) = slice_from-Advances c d e xs bytes p s in
      let (same_value, at_end) = passed-eq made in
      let at_d : d ≡ c' = sym same_cursor ∙ at_end in
      subst (λ z. Took IsHexOf c z v) at_d
        (subst (Took IsHexOf c d) same_value (record {
          piece = xs;
          before = p;
          behind = q;
          taken = omega (arith, ap length q, length-append xs d.rest, l);
          is_piece = rw (← same_bytes) x;
        }))

  next_value-Took :
      (deep : Bool) (c c' : Cursor) (v : JsValue)
      → next_value big_endian sha256 hex_encode hex_decode deep c ≡ ok (v, c')
      → Took IsHexOf c c' v
  unfolding next_value
  next_value-Took deep c c' v h =
      let ((value, d), m, rest) =
        >>=-eq-ok (map_err deserializing (deserialize big_endian deep c)) _ h in
      let (advances, shorter) =
        Consumes-eq (deserialize big_endian deep) c d value (Consumes-deserialize 0 deep)
          (map_err-eq-ok deserializing (deserialize big_endian deep c) m) in
      let ((bytes, e), n, encoded) =
        >>=-eq-ok (map_err deserializing (slice_from (position c) d)) _ rest in
      let (obj, o, made) =
        >>=-eq-ok
          (map_err no_address (decode_clarity_val sha256 hex_encode value deep bytes empty_object))
          _ encoded in
      Took-at c d e c' bytes obj v advances shorter (map_err-eq-ok deserializing _ n)
        (decode_clarity_val-hex sha256 hex_encode value deep bytes empty_object obj
          (map_err-eq-ok no_address _ o))
        made

  values-Split :
      (deep : Bool) (slice : List ℕ) (items : JsItems)
      → read_values big_endian sha256 hex_encode hex_decode deep slice ≡ ok items
      → Split IsHexOf items slice
  unfolding read_values
  values-Split deep slice items h =
      read_while-Split IsHexOf (next_value big_endian sha256 hex_encode hex_decode deep)
        (next_value-Took deep) (suc (length slice)) (length slice) (cursor_new slice) items
        (omega arith) h

  array-Split :
      (arg deep_arg : Option JsArgument) (input : List ℕ) (n : ℕ) (items : JsItems)
      → arg_bytes hex_decode arg ≡ ok input
      → 4 < length input
      → decode_clarity_value_array big_endian sha256 hex_encode hex_decode arg deep_arg
        ≡ ok (array n items)
      → Split IsHexOf items (drop 4 input)
  unfolding decode_clarity_value_array
  array-Split arg deep_arg input n items e l =
      rw (e, lt→ltb 4 (length input) l)
        (λ h.
          let (deep, m, rest) = >>=-eq-ok (deep_flag deep_arg) _ h in
          let (read, k, made) =
            >>=-eq-ok (read_values big_endian sha256 hex_encode hex_decode deep (drop 4 input)) _
              rest in
          values-Split deep (drop 4 input) items (k ∙ ap ok (array-eq made).1))

  module _ (b : ByteOrder) (hb : IsByteOrder b) where
    -- With byte readers as documented: when `decode_clarity_value_array` returns an array for more
    -- than four bytes, with or without `deep`, the bytes behind the first four are cut into pieces,
    -- one for each item in order, and the property `hex` of each item is the hexadecimal text of
    -- its piece.
    pub decode_clarity_value_array-Split :
        (arg deep_arg : Option JsArgument) (input : List ℕ) (n : ℕ) (items : JsItems)
        → arg_bytes hex_decode arg ≡ ok input
        → 4 < length input
        → decode_clarity_value_array b sha256 hex_encode hex_decode arg deep_arg
          ≡ ok (array n items)
        → Split IsHexOf items (drop 4 input)
    decode_clarity_value_array-Split arg deep_arg input n items e l =
        for_byte_order
          (λ o.
            decode_clarity_value_array o sha256 hex_encode hex_decode arg deep_arg
              ≡ ok (array n items)
            → Split IsHexOf items (drop 4 input))
          (array-Split arg deep_arg input n items e l) b hb
