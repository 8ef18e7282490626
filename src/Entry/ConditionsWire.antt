-- ===== src/Entry/ConditionsWire.antt =====
-- `decode_tx_post_conditions` of src/post_condition/mod.rs on the wire format of post-conditions.
use stacks_encoding_native_j.Prelude.{
  ℕ, zero, suc, ◌+◌, ◌^◌, ◌<◌, ◌≡◌, refl, arith, subst, List, [], ◌∷◌, ◌++◌, length, length-append,
  take, drop, take-append, drop-append, map, flatten, All, Option, lt→ltb, le→ltb, ok,
}
use stacks_encoding_native_j.Wire.Cursor.{position}
use stacks_encoding_native_j.Wire.Laws.{at, to_be, length-to_be, from_be_bytes-to_be}
use stacks_encoding_native_j.Wire.ByteOrder.{ByteOrder, IsByteOrder}
use stacks_encoding_native_j.Js.{
  JsObject, JsItems, number, object, array, empty_object, no_items, item, ◌&◌, ◌is◌,
}
use stacks_encoding_native_j.PostCondition.Types.{
  TransactionPostCondition, stx, fungible, nonfungible,
}
use stacks_encoding_native_j.PostCondition.Serialize.{condition_bytes, IsConditionWire}
use stacks_encoding_native_j.PostCondition.RoundTrip.{read_post_condition-condition_bytes}
use stacks_encoding_native_j.PostCondition.Encoder.{encode_post_condition}
use stacks_encoding_native_j.Entry.Arguments.{JsArgument, arg_bytes}
use stacks_encoding_native_j.Entry.Loop.{read_while}
use stacks_encoding_native_j.Entry.Conditions.{
  next_condition, read_conditions, post_conditions_array, decode_tx_post_conditions,
}

-- The encoding of a list of post-conditions behind their number.
abbrev pub all_bytes : List TransactionPostCondition → List ℕ
all_bytes conditions = flatten (map condition_bytes conditions)

condition_bytes_nonempty : (c : TransactionPostCondition) → 0 < length (condition_bytes c)
unfolding condition_bytes
condition_bytes_nonempty (stx p code amount) = omega arith
condition_bytes_nonempty (fungible p asset code amount) = omega arith
condition_bytes_nonempty (nonfungible p asset v code) = omega arith

module _ (b : ByteOrder) (sha256 : List ℕ → List ℕ) (hex_encode : List ℕ → List ℕ)
    (hex_decode : List ℕ → Option (List ℕ)) where
  -- The items are the objects of the post-conditions, in order.
  pub data Encoded : List TransactionPostCondition → JsItems → Type 0 where
    encoded_nil : Encoded [] no_items
    encoded_item :
        {conditions : List TransactionPostCondition} {items : JsItems}
        (c : TransactionPostCondition) (obj : JsObject)
        → encode_post_condition sha256 hex_encode c empty_object ≡ ok obj
        → Encoded conditions items
        → Encoded (c ∷ conditions) (item (object obj) items)

  next_condition-condition_bytes :
      IsByteOrder b
      → (c : TransactionPostCondition) (obj : JsObject) (pre post : List ℕ) → IsConditionWire c
      → encode_post_condition sha256 hex_encode c empty_object ≡ ok obj
      → next_condition b sha256 hex_encode hex_decode (at pre (condition_bytes c ++ post))
        ≡ ok (object obj, at (pre ++ condition_bytes c) post)
  unfolding next_condition
  next_condition-condition_bytes hb c obj pre post h e =
      rw (read_post_condition-condition_bytes b c pre post hb h, e) refl

  read_while-all_bytes :
      IsByteOrder b
      → {conditions : List TransactionPostCondition} {items : JsItems} (passes len : ℕ)
        (pre : List ℕ)
      → Encoded conditions items
      → All IsConditionWire conditions
      → length pre + length (all_bytes conditions) ≡ len
      → length (all_bytes conditions) < passes
      → read_while
          (next_condition b sha256 hex_encode hex_decode)
          passes
          len
          (at pre (all_bytes conditions))
        ≡ ok items
  unfolding read_while position
  read_while-all_bytes hb zero len pre k h l m = absurd (omega arith)
  read_while-all_bytes hb (suc passes) len pre encoded_nil h l m =
      rw (le→ltb (length pre) len (omega arith), read_while) refl
  read_while-all_bytes hb (suc passes) len pre (encoded_item {conditions} {items} c obj e k) h l m =
      let rest = all_bytes conditions in
      let some_bytes = condition_bytes_nonempty c in
      let total = length-append (condition_bytes c) rest in
      rw
        (
          lt→ltb (length pre) len (omega (arith, l, some_bytes, total)),
          read_while,
          next_condition-condition_bytes hb c obj pre rest h.0 e,
          read_while-all_bytes hb passes len (pre ++ condition_bytes c) k h.1
              (omega (arith, l, total, length-append pre (condition_bytes c)))
              (omega (arith, m, some_bytes, total)),
        )
        refl

  post_conditions_array-all_bytes :
      IsByteOrder b
      → (mode : ℕ) (conditions : List TransactionPostCondition) (items : JsItems)
      → Encoded conditions items
      → All IsConditionWire conditions
      → length conditions < 256 ^ 4
      → post_conditions_array b sha256 hex_encode hex_decode
          (mode ∷ (to_be 4 (length conditions) ++ all_bytes conditions))
        ≡ ok (array (length conditions) items)
  unfolding post_conditions_array read_conditions
  post_conditions_array-all_bytes hb mode conditions items k h l =
      let count = to_be 4 (length conditions) in
      let four = length-to_be 4 (length conditions) in
      let front : take 4 (count ++ all_bytes conditions) ≡ count =
        subst (λ n. take n (count ++ all_bytes conditions) ≡ count) four (take-append count _) in
      let back : drop 4 (count ++ all_bytes conditions) ≡ all_bytes conditions =
        subst (λ n. drop n (count ++ all_bytes conditions) ≡ all_bytes conditions) four
          (drop-append count _) in
      rw
        (
          lt→ltb 4 (suc (length (count ++ all_bytes conditions)))
              (omega (arith, four, length-append count (all_bytes conditions))),
          front,
          back,
          from_be_bytes-to_be 4 (length conditions) l,
          read_while-all_bytes hb (suc (length (all_bytes conditions)))
              (length (all_bytes conditions)) [] k h (omega arith) (omega arith),
        )
        refl

  -- With byte readers as documented: for an argument with a mode, the number of fewer than 2 ^ 32
  -- post-conditions that have an encoding, and their encodings, `decode_tx_post_conditions` returns
  -- the mode and an array of that length with the object of each post-condition in order, if each
  -- has an object.
  pub decode_tx_post_conditions-all_bytes :
      IsByteOrder b
      → (arg : Option JsArgument) (mode : ℕ) (conditions : List TransactionPostCondition)
        (items : JsItems)
      → arg_bytes hex_decode arg ≡ ok (mode ∷ (to_be 4 (length conditions) ++ all_bytes conditions))
      → All IsConditionWire conditions
      → length conditions < 256 ^ 4
      → Encoded conditions items
      → decode_tx_post_conditions b sha256 hex_encode hex_decode arg
        ≡ ok (
            object (
              empty_object
              & "post_condition_mode" is number mode
              & "post_conditions" is array (length conditions) items))
  unfolding decode_tx_post_conditions
  decode_tx_post_conditions-all_bytes hb arg mode conditions items e h l k =
      rw (e, post_conditions_array-all_bytes hb mode conditions items k h l) refl
