-- ===== src/Entry/ConditionsLoop.antt =====
-- The loop of `decode_tx_post_conditions` in src/post_condition/mod.rs.
use stacks_encoding_native_j.Prelude.{
  ℕ, suc, ◌<◌, ◌≡◌, sym, ap, ◌∙◌, arith, subst, List, ◌++◌, length, length-append, take, drop,
  Option, lt→ltb, ok, >>=-eq-ok, map_err, map_err-eq-ok,
}
use stacks_encoding_native_j.Wire.Cursor.{Cursor}
use stacks_encoding_native_j.Wire.Reader.{from_be_bytes}
use stacks_encoding_native_j.Wire.ByteOrder.{ByteOrder, IsByteOrder, big_endian, for_byte_order}
use stacks_encoding_native_j.Wire.Frames.{Advances}
use stacks_encoding_native_j.Wire.Consumes.{Consumes-eq}
use stacks_encoding_native_j.Js.{JsValue, JsObject, JsItems, object, array, empty_object}
use stacks_encoding_native_j.PostCondition.Types.{TransactionPostCondition}
use stacks_encoding_native_j.PostCondition.Deserialize.{read_post_condition}
use stacks_encoding_native_j.PostCondition.Frames.{Consumes-post_condition}
use stacks_encoding_native_j.PostCondition.Encoder.{encode_post_condition}
use stacks_encoding_native_j.Entry.Arguments.{deserializing, no_address, cursor_new}
use stacks_encoding_native_j.Entry.Loop.Ends.{Split, Took, read_while-Split, passed-eq, array-eq}
use stacks_encoding_native_j.Entry.Conditions.{
  next_condition, read_conditions, post_conditions_array,
}

module _ (b : ByteOrder) (sha256 : List ℕ → List ℕ) (hex_encode : List ℕ → List ℕ)
    (hex_decode : List ℕ → Option (List ℕ)) where
  -- The object of the post-condition that is read from some bytes, in whatever surroundings.
  pub record IsConditionOf (xs : List ℕ) (v : JsValue) : Type 0 where
    pub condition : TransactionPostCondition
    pub start : Cursor
    pub behind : Cursor
    pub read : read_post_condition b start ≡ ok (condition, behind)
    pub spelled : start.rest ≡ xs ++ behind.rest
    pub obj : JsObject
    pub encoded : encode_post_condition sha256 hex_encode condition empty_object ≡ ok obj
    pub value : v ≡ object obj

  next_condition-Took :
      IsByteOrder b
      → (c c' : Cursor) (v : JsValue) → next_condition b sha256 hex_encode hex_decode c ≡ ok (v, c')
      → Took IsConditionOf c c' v
  unfolding next_condition
  next_condition-Took hb c c' v h =
      let ((condition, d), m, rest) =
        >>=-eq-ok (map_err deserializing (read_post_condition b c)) _ h in
      let was_read = map_err-eq-ok deserializing (read_post_condition b c) m in
      let ((xs, p, q), shorter) =
        for_byte_order
          (λ o.
            read_post_condition o c ≡ ok (condition, d)
            → Advances c d × (length d.rest < length c.rest))
          (Consumes-eq (read_post_condition big_endian) c d condition (Consumes-post_condition 0)) b
          hb was_read in
      let (obj, o, made) =
        >>=-eq-ok
          (map_err no_address (encode_post_condition sha256 hex_encode condition empty_object)) _
          rest in
      let (same_value, at_end) = passed-eq made in
      subst (λ z. Took IsConditionOf c z v) at_end
        (record {
          piece = xs;
          before = p;
          behind = q;
          taken = omega (arith, ap length q, length-append xs d.rest, shorter);
          is_piece = record {
            condition = condition;
            start = c;
            behind = d;
            read = was_read;
            spelled = q;
            obj = obj;
            encoded = map_err-eq-ok no_address _ o;
            value = sym same_value;
          };
        })

  -- With byte readers as documented: when the array of post-conditions is returned for more than
  -- four bytes, its length is the number in the bytes behind the first, and the bytes behind those
  -- five are cut into pieces, one for each item in order, each item being the object of a post-
  -- condition that is read from its piece.
  pub post_conditions_array-Split :
      IsByteOrder b
      → (input : List ℕ) (n : ℕ) (items : JsItems) → 4 < length input
      → post_conditions_array b sha256 hex_encode hex_decode input ≡ ok (array n items)
      → (n ≡ from_be_bytes (take 4 (drop 1 input))) × Split IsConditionOf items (drop 5 input)
  unfolding post_conditions_array read_conditions
  post_conditions_array-Split hb input n items l = rw (lt→ltb 4 (length input) l) (λ h.
      let (read, k, made) =
        >>=-eq-ok (read_conditions b sha256 hex_encode hex_decode (drop 5 input)) _ h in
      let (same_length, same_items) = array-eq made in
      (
        sym same_length,
        read_while-Split IsConditionOf (next_condition b sha256 hex_encode hex_decode)
            (next_condition-Took hb) (suc (length (drop 5 input))) (length (drop 5 input))
            (cursor_new (drop 5 input)) items (omega arith) (k ∙ ap ok same_items),
      ))
