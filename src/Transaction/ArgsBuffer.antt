-- ===== src/Transaction/ArgsBuffer.antt =====
-- The buffer of a contract call's arguments in stacks_tx/neon_encoder.rs.
use stacks_encoding_native_j.Prelude.{
  ℕ, ◌%◌, ◌^◌, ◌<◌, ◌≡◌, sym, ap, ◌∙◌, subst, List, [], ◌∷◌, ◌++◌, length, All, All-take, true,
  some, codes, Outcome, ok, >>=-eq-ok, or_panic,
}
use stacks_encoding_native_j.Prelude.{or_panic-eq-ok, false}
use stacks_encoding_native_j.Address.Crockford.Defs.{C32Error}
use stacks_encoding_native_j.Clarity.EncoderHex.{done-eq}
use stacks_encoding_native_j.Wire.Cursor.{Cursor}
use stacks_encoding_native_j.Wire.Error.{DeserializeError}
use stacks_encoding_native_j.Wire.Laws.{to_be}
use stacks_encoding_native_j.Wire.Reader.{
  Reader, pure, read_be, read_exact, read_vec, from_be_bytes, from_be_bytes_acc,
}
use stacks_encoding_native_j.Wire.Reader
use stacks_encoding_native_j.Wire.ByteOrder.{ByteOrder, IsByteOrder, big_endian, for_byte_order}
use stacks_encoding_native_j.Wire.Frames.{Advances, Advances-trans, Frames-Advances}
use stacks_encoding_native_j.Clarity.Names.{read_clarity_name}
use stacks_encoding_native_j.Clarity.Frames.{Frames-name}
use stacks_encoding_native_j.PostCondition.Deserialize.{read_stacks_address}
use stacks_encoding_native_j.PostCondition.Frames.{Frames-address}
use stacks_encoding_native_j.Transaction.Payload.{read_contract_call}
use stacks_encoding_native_j.Js.{JsObject, JsItems, string, get, empty_object}
use stacks_encoding_native_j.Clarity.Types.{ClarityValue, clarity_value}
use stacks_encoding_native_j.Clarity.Deserialize.{deserialize}
use stacks_encoding_native_j.Clarity.Repr.{encode_hex}
use stacks_encoding_native_j.Clarity.Encoder.{decode_clarity_val, serialized_bytes}
use stacks_encoding_native_j.Transaction.Types.{TransactionContractCall}
use stacks_encoding_native_j.Transaction.ConditionEncoder.{serialize_stacks_address}
use stacks_encoding_native_j.Transaction.PayloadEncoder.{serialize_args, serialize_contract_call}
use stacks_encoding_native_j.Wire.Taken.{
  Between-append, to_be-from_be_bytes, Exactly, number_read-eq, read_exact-eq,
}
use stacks_encoding_native_j.Transaction.RawArgs.{IsRaw, ReadArgs, ReadArgs-vec, some-eq}

abbrev call_read :
    TransactionContractCall → Cursor → Outcome DeserializeError (TransactionContractCall × Cursor)
call_read call c = ok (call, c)

call_read-eq :
    {x y : TransactionContractCall} {c d : Cursor}
    → call_read x c ≡ call_read y d
    → (x ≡ y) × (c ≡ d)
call_read-eq h = (cc h, cc h)

All-back : (xs ys : List ℕ) → All (λ x. x < 256) (xs ++ ys) → All (λ x. x < 256) ys
All-back [] ys h = h
All-back (x ∷ xs) ys h = All-back xs ys h.1

All-Advances : (c d : Cursor) → Advances c d → All (λ x. x < 256) c.rest → All (λ x. x < 256) d.rest
All-Advances c d (xs, p, q) h = All-back xs d.rest (subst (All (λ x. x < 256)) q h)

-- The cursor behind the address and the two names of a call, where its arguments start.
pub record BehindNames (b : ByteOrder) (call : TransactionContractCall) (c front : Cursor)
    : Type 0 where
  pub behind_address : Cursor
  pub behind_contract : Cursor
  pub address_read : read_stacks_address b c ≡ ok (call.address, behind_address)
  pub contract_read : read_clarity_name b behind_address ≡ ok (call.contract_name, behind_contract)
  pub function_read : read_clarity_name b behind_contract ≡ ok (call.function_name, front)

-- The property "function_args_buffer" holds the bytes between the two cursors.
pub record IsBuffer (sha256 hex_encode : List ℕ → List ℕ) (result : JsObject) (c c' : Cursor)
    : Type 0 where
  pub raw : List ℕ
  pub consumed : c'.consumed ≡ c.consumed ++ raw
  pub rest : c.rest ≡ raw ++ c'.rest
  pub buffer :
      get (codes "function_args_buffer") result ≡ some (string (encode_hex sha256 hex_encode raw))

module _ (sha256 : List ℕ → List ℕ) (hex_encode : List ℕ → List ℕ) where
  abbrev written : List ℕ → JsItems → Outcome C32Error (List ℕ × JsItems)
  written raw items = ok (raw, items)

  written-eq : {xs ys : List ℕ} {i j : JsItems} → written xs i ≡ written ys j → xs ≡ ys
  written-eq h = cc h

  serialize_args-IsRaw :
      (args : List ClarityValue) (raw xs : List ℕ) (items : JsItems)
      → serialize_args sha256 hex_encode args ≡ ok (raw, items)
      → IsRaw args xs
      → raw ≡ xs
  unfolding serialize_args serialized_bytes
  serialize_args-IsRaw [] raw xs items h k = sym (written-eq h) ∙ sym k
  serialize_args-IsRaw (clarity_value kept v ∷ args) raw xs items h (bytes, rest, e, f, k) =
      let (kept_bytes, m, h1) = >>=-eq-ok (or_panic kept) _ h in
      let (obj, n, h2) =
        >>=-eq-ok
          (decode_clarity_val sha256 hex_encode (clarity_value kept v) false kept_bytes
            empty_object)
          _ h1 in
      let ((tail, tail_items), o, made) = >>=-eq-ok (serialize_args sha256 hex_encode args) _ h2 in
      let same_bytes : kept_bytes ≡ bytes = some-eq (sym (or_panic-eq-ok kept m) ∙ e) in
      let same_tail : tail ≡ rest = serialize_args-IsRaw args tail rest tail_items o k in
      sym (written-eq made)
      ∙ ap (λ z. z ++ tail) same_bytes
      ∙ ap (λ z. bytes ++ z) same_tail
      ∙ sym f

  -- The property, once the object is there.
  serialize_contract_call-buffer :
      (call : TransactionContractCall) (obj result : JsObject) (xs : List ℕ)
      → serialize_contract_call sha256 hex_encode call obj ≡ ok result
      → IsRaw call.function_args xs
      → get (codes "function_args_buffer") result
        ≡ some (
            string
              (encode_hex sha256 hex_encode (to_be 4 (length call.function_args % 2 ^ 32) ++ xs)))
  unfolding serialize_contract_call
  serialize_contract_call-buffer call obj result xs h k =
      let (addressed, m, h1) =
        >>=-eq-ok (serialize_stacks_address sha256 hex_encode call.address obj) _ h in
      let ((raw, items), n, made) =
        >>=-eq-ok (serialize_args sha256 hex_encode call.function_args) _ h1 in
      let same_raw : raw ≡ xs = serialize_args-IsRaw call.function_args raw xs items n k in
      sym (ap (get (codes "function_args_buffer")) (done-eq made))
      ∙ ap
          (λ z. some (
            string
              (encode_hex sha256 hex_encode (to_be 4 (length call.function_args % 2 ^ 32) ++ z))))
          same_raw

  IsBuffer-of :
      (call : TransactionContractCall) (obj result : JsObject) (c d c' : Cursor) (bytes : List ℕ)
      → Exactly 4 c d bytes
      → ReadArgs (from_be_bytes bytes) call.function_args d c'
      → All (λ x. x < 256) c.rest
      → serialize_contract_call sha256 hex_encode call obj ≡ ok result
      → IsBuffer sha256 hex_encode result c c'
  IsBuffer-of call obj result c d c' bytes first args h s =
      let count : to_be 4 (length call.function_args % 2 ^ 32) ≡ bytes = rw args.count (
        to_be-from_be_bytes bytes first.amount
          (rw first.from_rest (All-take (λ x. x < 256) 4 c.rest h))) in
      let between = Between-append c d c' bytes args.raw first.between args.between in
      record {
        raw = bytes ++ args.raw;
        consumed = between.0;
        rest = between.1;
        buffer =
            serialize_contract_call-buffer call obj result args.raw s args.is_raw
            ∙ ap (λ z. some (string (encode_hex sha256 hex_encode (z ++ args.raw)))) count;
      }

  -- The part of `read_contract_call` behind the names.
  IsBuffer-at :
      (call made_call : TransactionContractCall) (obj result : JsObject) (c d e c' : Cursor)
      (len : ℕ)
      → read_be 4 c ≡ ok (len, d)
      → read_vec (deserialize big_endian true) len d ≡ ok (made_call.function_args, e)
      → call_read made_call e ≡ call_read call c'
      → All (λ x. x < 256) c.rest
      → serialize_contract_call sha256 hex_encode call obj ≡ ok result
      → IsBuffer sha256 hex_encode result c c'
  unfolding Reader.◌>>=◌ read_be
  IsBuffer-at call made_call obj result c d e c' len m rest made h s =
      let args = made_call.function_args in
      let ((bytes, d'), k, number) = >>=-eq-ok (read_exact 4 c) _ m in
      let (same_len, same_cursor) = number_read-eq number in
      let (same_call, same_end) = call_read-eq made in
      let read : ReadArgs (from_be_bytes bytes) args d' e =
        subst (λ n. ReadArgs n args d' e) (sym same_len)
          (subst (λ z. ReadArgs len args z e) (sym same_cursor) (ReadArgs-vec len d e args rest)) in
      IsBuffer-of call obj result c d' c' bytes (read_exact-eq 4 c d' bytes k)
        (subst (λ z. ReadArgs (from_be_bytes bytes) call.function_args d' z) same_end
          (subst
            (λ (z : TransactionContractCall). ReadArgs (from_be_bytes bytes) z.function_args d' e)
            same_call read))
        h s

  call_at :
      (call : TransactionContractCall) (obj result : JsObject) (c c' : Cursor)
      → read_contract_call big_endian c ≡ ok (call, c')
      → All (λ x. x < 256) c.rest
      → serialize_contract_call sha256 hex_encode call obj ≡ ok result
      → (front : Cursor) × BehindNames big_endian call c front
        × IsBuffer sha256 hex_encode result front c'
  unfolding Reader.◌>>=◌ read_contract_call
  call_at call obj result c c' r h s =
      let ((address, c1), m1, r1) = >>=-eq-ok (read_stacks_address big_endian c) _ r in
      let ((name, c2), m2, r2) = >>=-eq-ok (read_clarity_name big_endian c1) _ r1 in
      let ((function, c3), m3, r3) = >>=-eq-ok (read_clarity_name big_endian c2) _ r2 in
      let ((len, d), m4, r4) = >>=-eq-ok (read_be 4 c3) _ r3 in
      let ((args, e), m5, made) = >>=-eq-ok (read_vec (deserialize big_endian true) len d) _ r4 in
      let front =
        Advances-trans c c1 c3
          (Frames-Advances (read_stacks_address big_endian) c c1 address (Frames-address 0) m1)
          (Advances-trans c1 c2 c3
            (Frames-Advances (read_clarity_name big_endian) c1 c2 name (Frames-name 0) m2)
            (Frames-Advances (read_clarity_name big_endian) c2 c3 function (Frames-name 0) m3)) in
      (
        c3,
        subst (λ z. BehindNames big_endian z c c3) (call_read-eq made).0
            (record {
              behind_address = c1;
              behind_contract = c2;
              address_read = m1;
              contract_read = m2;
              function_read = m3;
            }),
        IsBuffer-at call _ obj result c3 d e c' len m4 m5 made (All-Advances c c3 front h) s,
      )

  -- With byte readers as documented and an input of bytes: when a contract call that was read is
  -- encoded, the property `function_args_buffer` is the hexadecimal text of exactly the bytes that
  -- the reader consumed behind the address and the two names of the call, that is from the number
  -- of arguments on.
  pub serialize_contract_call-IsBuffer :
      (b : ByteOrder)
      → IsByteOrder b
      → (call : TransactionContractCall) (obj result : JsObject) (c c' : Cursor)
      → read_contract_call b c ≡ ok (call, c')
      → All (λ x. x < 256) c.rest
      → serialize_contract_call sha256 hex_encode call obj ≡ ok result
      → (front : Cursor) × BehindNames b call c front × IsBuffer sha256 hex_encode result front c'
  serialize_contract_call-IsBuffer b hb call obj result c c' =
      for_byte_order
        (λ o.
          read_contract_call o c ≡ ok (call, c')
          → All (λ x. x < 256) c.rest
          → serialize_contract_call sha256 hex_encode call obj ≡ ok result
          → (front : Cursor) × BehindNames o call c front
            × IsBuffer sha256 hex_encode result front c')
        (call_at call obj result c c') b hb
