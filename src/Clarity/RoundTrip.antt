-- ===== src/Clarity/RoundTrip.antt =====
-- `ClarityValue::deserialize` of clarity_value/deserialize.rs behind the wire format of Serialize.
use stacks_encoding_native_j.Wire.Reader.{◌>>◌}
use stacks_encoding_native_j.Prelude.{
  ℕ, zero, suc, ◌+◌, ◌%◌, ◌≤◌, ◌≡◌, refl, sym, ap, ◌∙◌, arith, List, [],
}
use stacks_encoding_native_j.Prelude.{
  ◌∷◌, ◌++◌, length, append_assoc, drop, lt→leb, Bool, true, false,
}
use stacks_encoding_native_j.Prelude.{flatten, ok}
use stacks_encoding_native_j.Wire.Cursor.{position}
use stacks_encoding_native_j.Wire.Reader.{Reader, pure, ◌>>=◌, read_exact}
use stacks_encoding_native_j.Wire.ByteOrder.{ByteOrder, IsByteOrder, big_endian, for_byte_order}
use stacks_encoding_native_j.Wire.Laws.{
  Reads, Reads-map, Reads-bind, Reads-value, Reads-exact, Reads-pure, slice_from-at,
}
use stacks_encoding_native_j.Wire.Laws.{at, to_be}
use stacks_encoding_native_j.Clarity.TypePrefix.{to_u8, type_prefix, from_u8-to_u8}
use stacks_encoding_native_j.Clarity.Types.{
  Value, ClarityValue, Items, Fields, ClarityName, clarity_value, new, new_with_bytes, insert,
  to_string_utf8,
}
use stacks_encoding_native_j.Clarity.Names.{read_clarity_name, read_standard_principal}
use stacks_encoding_native_j.Clarity.Deserialize.{
  read_size, read_items, read_fields, read_body, finish, inner_deserialize_read, deserialize,
}
use stacks_encoding_native_j.Clarity.Serialize.{
  serialize_value, serialize, serialize_items, serialize_fields, serialize_name, serialize_bytes,
  serialize_principal, count_items, count_fields, from_i128, kept_bytes, AllAfter, IsWire,
  IsWireBody, AllWire, AllWireFields,
}
use stacks_encoding_native_j.Clarity.Serialize
use stacks_encoding_native_j.Clarity.InOrder.{
  AllBefore, append_fields, insert_last, append_fields_assoc, append_fields-nil, Precede,
  Precede-append, Precede-empty,
}
use stacks_encoding_native_j.Clarity.NamesRoundTrip.{Reads-name, Reads-principal}
use stacks_encoding_native_j.Clarity.BodyRoundTrip.{
  Reads-size, Reads-int, Reads-uint, Reads-sized_value, to_string_utf8-flatten,
}

-- What follows the prefix.
abbrev body : Value → List ℕ
body v = drop 1 (serialize_value v)

serialize_value-prefix : (v : Value) → serialize_value v ≡ to_u8 (type_prefix v) ∷ body v
unfolding serialize_value type_prefix to_u8
serialize_value-prefix (Value.bool true) = refl
serialize_value-prefix (Value.bool false) = refl
serialize_value-prefix (Value.int z) = refl
serialize_value-prefix _ = refl

finish-at :
    (w : Bool) (v : Value) (pre post : List ℕ)
    → finish big_endian w (length pre) v (at (pre ++ serialize_value v) post)
      ≡ ok (clarity_value (kept_bytes w v) v, at (pre ++ serialize_value v) post)
unfolding finish new new_with_bytes ◌>>=◌ serialize_value
finish-at true v pre post = rw (slice_from-at pre (serialize_value v) post) refl
finish-at false v pre post = refl

abbrev inner : ℕ → ℕ → Bool → Reader ClarityValue
inner = inner_deserialize_read big_endian

-- One level of the recursion.
Reads-level :
    (fuel depth : ℕ) (w : Bool) (v : Value)
    → depth ≤ 15
    → Reads (read_body big_endian (inner fuel (depth + 1) w) (type_prefix v)) (body v) v
    → Reads (inner (suc fuel) depth w) (serialize_value v) (clarity_value (kept_bytes w v) v)
unfolding inner_deserialize_read position ◌>>◌ serialize_value ◌>>=◌
Reads-level fuel depth w v h reads pre post =
    let t = to_u8 (type_prefix v) in
    let deeper : (depth + 1) % 256 ≡ depth + 1 = omega arith in
    let split : serialize_value v ++ post ≡ t ∷ (body v ++ post) =
      ap (λ s. s ++ post) (serialize_value-prefix v) in
    let joined : (pre ++ (t ∷ [])) ++ body v ≡ pre ++ serialize_value v =
      append_assoc pre (t ∷ []) (body v) ∙ ap (λ s. pre ++ s) (sym (serialize_value-prefix v)) in
    rw
      (
        lt→leb 16 depth (omega arith),
        split,
        Reads-exact 1 (t ∷ []) refl pre (body v ++ post),
        from_u8-to_u8 (type_prefix v),
        deeper,
      )
      (rw (reads (pre ++ (t ∷ [])) post) (rw joined (finish-at w v pre post)))

-- The rest of the loop behind an insertion at the end.
Reads-inserted :
    (read_value : Reader ClarityValue) (key : ClarityName) (v : ClarityValue) (entries fs : Fields)
    → AllBefore entries key
    → Reads
        (read_fields big_endian read_value
          (count_fields fs)
          (append_fields entries (Fields.field key v Fields.no_fields)))
        (serialize_fields fs)
        (append_fields (append_fields entries (Fields.field key v Fields.no_fields)) fs)
    → Reads
        (read_fields big_endian read_value (count_fields fs) (insert key v entries))
        (serialize_fields fs)
        (append_fields entries (Fields.field key v fs))
Reads-inserted read_value key v entries fs h reads = rw (insert_last key v entries h) (
    Reads-value
      (read_fields big_endian read_value (count_fields fs)
        (append_fields entries (Fields.field key v Fields.no_fields)))
      (serialize_fields fs)
      (append_fields (append_fields entries (Fields.field key v Fields.no_fields)) fs)
      (append_fields entries (Fields.field key v fs)) (append_fields_assoc entries key v fs) reads)

mutual
  unfolding read_body serialize_value type_prefix read_items read_fields

  Reads-wire :
      {w : Bool} {k : ℕ} {v : ClarityValue} (fuel depth : ℕ)
      → k ≤ fuel
      → depth + k ≤ 16
      → IsWire w k v
      → Reads (inner fuel depth w) (serialize v) v
  Reads-wire {w} zero depth hf hd (Serialize.wire {k} {v} h) = absurd (omega arith)
  Reads-wire {w} (suc fuel) depth hf hd (Serialize.wire {k} {v} h) =
      Reads-level fuel depth w v (omega arith)
        (Reads-body fuel (depth + 1) (omega arith) (omega arith) h)

  Reads-body :
      {w : Bool} {k : ℕ} {v : Value} (fuel depth : ℕ)
      → k ≤ fuel
      → depth + k ≤ 16
      → IsWireBody w k v
      → Reads (read_body big_endian (inner fuel depth w) (type_prefix v)) (body v) v
  Reads-body {w} fuel depth hf hd (Serialize.int z h) = Reads-int z h
  Reads-body {w} fuel depth hf hd (Serialize.uint n h) = Reads-uint n h
  Reads-body {w} fuel depth hf hd (Serialize.buffer bytes h) =
      Reads-sized_value Value.buffer bytes h
  Reads-body {w} fuel depth hf hd (Serialize.bool true) = Reads-pure (Value.bool true)
  Reads-body {w} fuel depth hf hd (Serialize.bool false) = Reads-pure (Value.bool false)
  Reads-body {w} fuel depth hf hd (Serialize.principal_standard p h) =
      Reads-map (read_standard_principal big_endian) Value.principal_standard
        (serialize_principal p) p (Reads-principal p h)
  Reads-body {w} fuel depth hf hd (Serialize.principal_contract issuer name h g) =
      Reads-bind (read_standard_principal big_endian)
        (λ i. read_clarity_name big_endian >>= λ n.
          pure (Value.principal_contract (record { issuer = i; name = n })))
        (serialize_principal issuer) (serialize_name name) issuer
        (Value.principal_contract (record { issuer = issuer; name = name }))
        (Reads-principal issuer h)
        (Reads-map (read_clarity_name big_endian)
          (λ n. Value.principal_contract (record { issuer = issuer; name = n }))
          (serialize_name name) name (Reads-name name g))
  Reads-body {w} fuel depth hf hd (Serialize.response_ok {v = v} h) =
      Reads-map (inner fuel depth w) Value.response_ok (serialize v) v
        (Reads-wire fuel depth hf hd h)
  Reads-body {w} fuel depth hf hd (Serialize.response_err {v = v} h) =
      Reads-map (inner fuel depth w) Value.response_err (serialize v) v
        (Reads-wire fuel depth hf hd h)
  Reads-body {w} fuel depth hf hd Serialize.optional_none = Reads-pure Value.optional_none
  Reads-body {w} fuel depth hf hd (Serialize.optional_some {v = v} h) =
      Reads-map (inner fuel depth w) Value.optional_some (serialize v) v
        (Reads-wire fuel depth hf hd h)
  Reads-body {w} fuel depth hf hd (Serialize.list {xs = xs} bound h) =
      Reads-bind read_size (λ n. read_items (inner fuel depth w) n >>= λ ys. pure (Value.list ys))
        (to_be 4 (count_items xs)) (serialize_items xs) (count_items xs) (Value.list xs)
        (Reads-size (count_items xs) bound)
        (Reads-map (read_items (inner fuel depth w) (count_items xs)) Value.list
          (serialize_items xs) xs (Reads-items fuel depth hf hd h))
  Reads-body {w} fuel depth hf hd (Serialize.tuple {fs = fs} bound h) =
      Reads-bind read_size
        (λ n. read_fields big_endian (inner fuel depth w) n Fields.no_fields >>= λ gs.
          pure (Value.tuple gs))
        (to_be 4 (count_fields fs)) (serialize_fields fs) (count_fields fs) (Value.tuple fs)
        (Reads-size (count_fields fs) bound)
        (Reads-map (read_fields big_endian (inner fuel depth w) (count_fields fs) Fields.no_fields)
          Value.tuple (serialize_fields fs) fs
          (Reads-fields fuel depth Fields.no_fields hf hd (Precede-empty fs) h))
  Reads-body {w} fuel depth hf hd (Serialize.string_ascii bytes h) =
      Reads-sized_value Value.string_ascii bytes h
  Reads-body {w} fuel depth hf hd (Serialize.string_utf8 chars h bound) =
      Reads-value (read_size >>= λ len. read_exact len >>= λ bs. pure (to_string_utf8 bs))
        (serialize_bytes (flatten chars)) (to_string_utf8 (flatten chars)) (Value.string_utf8 chars)
        (to_string_utf8-flatten chars h) (Reads-sized_value to_string_utf8 (flatten chars) bound)

  Reads-items :
      {w : Bool} {k : ℕ} {xs : Items} (fuel depth : ℕ)
      → k ≤ fuel
      → depth + k ≤ 16
      → AllWire w k xs
      → Reads (read_items (inner fuel depth w) (count_items xs)) (serialize_items xs) xs
  Reads-items {w} fuel depth hf hd Serialize.AllWire.no_items = Reads-pure Items.no_items
  Reads-items {w} fuel depth hf hd (Serialize.item {v = v} {xs = xs} h hs) =
      Reads-bind (inner fuel depth w)
        (λ u. read_items (inner fuel depth w) (count_items xs) >>= λ ys. pure (Items.item u ys))
        (serialize v) (serialize_items xs) v (Items.item v xs) (Reads-wire fuel depth hf hd h)
        (Reads-map (read_items (inner fuel depth w) (count_items xs)) (Items.item v)
          (serialize_items xs) xs (Reads-items fuel depth hf hd hs))

  Reads-fields :
      {w : Bool} {k : ℕ} {fs : Fields} (fuel depth : ℕ) (entries : Fields)
      → k ≤ fuel
      → depth + k ≤ 16
      → Precede entries fs
      → AllWireFields w k fs
      → Reads
          (read_fields big_endian (inner fuel depth w) (count_fields fs) entries)
          (serialize_fields fs)
          (append_fields entries fs)
  Reads-fields {w} fuel depth entries hf hd p Serialize.AllWireFields.no_fields =
      Reads-value (pure entries) [] entries (append_fields entries Fields.no_fields)
        (sym (append_fields-nil entries)) (Reads-pure entries)
  Reads-fields {w} fuel depth entries hf hd p (Serialize.field {v = v} {fs = fs} key g h a hs) =
      let entries' = append_fields entries (Fields.field key v Fields.no_fields) in
      Reads-bind (read_clarity_name big_endian)
        (λ j. inner fuel depth w >>= λ u.
          read_fields big_endian (inner fuel depth w) (count_fields fs) (insert j u entries))
        (serialize_name key) (serialize v ++ serialize_fields fs) key
        (append_fields entries (Fields.field key v fs)) (Reads-name key g)
        (Reads-bind (inner fuel depth w)
          (λ u.
            read_fields big_endian (inner fuel depth w) (count_fields fs) (insert key u entries))
          (serialize v) (serialize_fields fs) v (append_fields entries (Fields.field key v fs))
          (Reads-wire fuel depth hf hd h)
          (Reads-inserted (inner fuel depth w) key v entries fs p.0
            (Reads-fields fuel depth entries' hf hd (Precede-append entries key v fs p.1 a) hs)))

-- With byte readers as documented, a Clarity value that has an encoding and is nested at most 16
-- deep is read back from its encoding at any place of the input, with the bytes it is to keep, and
-- exactly the encoding is consumed.
pub deserialize-serialize :
    (b : ByteOrder) (w : Bool) (v : ClarityValue) (pre post : List ℕ)
    → IsByteOrder b
    → IsWire w 16 v
    → deserialize b w (at pre (serialize v ++ post)) ≡ ok (v, at (pre ++ serialize v) post)
deserialize-serialize b w v pre post hb h =
    for_byte_order (λ o. Reads (deserialize o w) (serialize v) v)
      (unfold deserialize in Reads-wire 17 0 (omega arith) (omega arith) h) b hb pre post
