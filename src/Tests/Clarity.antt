-- ===== src/Tests/Clarity.antt =====
-- Runs of the deserializer of clarity_value/deserialize.rs, and instances of its theorems.
use stacks_encoding_native_j.Wire.ByteOrder.{big_endian-IsByteOrder}
use stacks_encoding_native_j.Clarity.Deserialize.{finish}
use stacks_encoding_native_j.Clarity.Deserialize.{read_body}
use stacks_encoding_native_j.Clarity.TypePrefix.{from_u8}
use stacks_encoding_native_j.Clarity.Types.{new_with_bytes}
use stacks_encoding_native_j.Wire.Cursor.{position}
use stacks_encoding_native_j.Wire.Reader.{read_exact}
use stacks_encoding_native_j.Wire.Reader.{slice_from}
use stacks_encoding_native_j.Wire.Reader.{◌>>=◌}
use stacks_encoding_native_j.Wire.Reader.{◌>>◌}
use stacks_encoding_native_j.Prelude.{
  ℕ, ◌+◌, ◌≡◌, refl, arith, [], ◌∷◌, ◌++◌, true, false, replicate, some, ok, err, hangs, negsuc,
  ◌<◌, inr, All-replicate,
}
use stacks_encoding_native_j.Text.Utf8.{is_utf8, is_utf8_from-ascii}
use stacks_encoding_native_j.Wire.Error.{type_signature_too_deep}
use stacks_encoding_native_j.Wire.ByteOrder.{big_endian}
use stacks_encoding_native_j.Wire.Laws.{at}
use stacks_encoding_native_j.Clarity.Types.{
  Value, ClarityValue, Items, Fields, clarity_value, compare_keys,
}
use stacks_encoding_native_j.Clarity.Serialize
use stacks_encoding_native_j.Clarity.Serialize.{
  serialize, kept_bytes, IsWire, IsWireBody, IsName, IsI128,
}
use stacks_encoding_native_j.Clarity.Deserialize.{deserialize, inner_deserialize_read}
use stacks_encoding_native_j.Clarity.RoundTrip.{deserialize-serialize}
use stacks_encoding_native_j.Prelude.{codes, panic, List, inl, inr}
use stacks_encoding_native_j.Text.Decimal.{decimal, decimal_from}
use stacks_encoding_native_j.Clarity.Types.{StandardPrincipalData}
use stacks_encoding_native_j.Clarity.Repr.{repr_string, repr_string-panic}
use stacks_encoding_native_j.Clarity.TypeSignature.{type_signature}
use stacks_encoding_native_j.Clarity.ReprTotal.{ArePrintable, repr_string-ok}
use stacks_encoding_native_j.Tests.Address.{digest, digest-IsSha256}
use stacks_encoding_native_j.Clarity.Kept.{Keeps, deserialize-Keeps}
use stacks_encoding_native_j.Clarity.Limits.{
  IsWrapper, deserialize-too_deep, deserialize-bad_prefix, deserialize-fuel,
}

abbrev kept : Value → ClarityValue
kept v = clarity_value (kept_bytes true v) v

-- `(ok { a: -3, b: (list true none) })`
abbrev inside_list : Items
inside_list =
    Items.item (kept (Value.bool true)) (Items.item (kept Value.optional_none) Items.no_items)

abbrev entries : Fields
entries =
    Fields.field (b'a' ∷ []) (kept (Value.int (negsuc 2)))
      (Fields.field (b'b' ∷ []) (kept (Value.list inside_list)) Fields.no_fields)

abbrev sample : ClarityValue
sample = kept (Value.response_ok (kept (Value.tuple entries)))

one_letter-IsName : (c : ℕ) → c < 128 → IsName (c ∷ [])
unfolding is_utf8
one_letter-IsName c h = record {
  name_length = omega arith;
  name_utf8 = is_utf8_from-ascii (c ∷ []) (h, tt);
}

sample-IsWire : IsWire true 16 sample
unfolding compare_keys
sample-IsWire = Serialize.wire (
    Serialize.response_ok (
      Serialize.wire (
        Serialize.tuple (omega arith) (
          Serialize.field (b'a' ∷ []) (one_letter-IsName b'a' (omega arith))
            (Serialize.wire (Serialize.int (negsuc 2) (omega arith))) (refl, tt)
            (Serialize.field (b'b' ∷ []) (one_letter-IsName b'b' (omega arith))
              (Serialize.wire (
                Serialize.list (omega arith) (
                  Serialize.item (Serialize.wire (Serialize.bool true)) (
                    Serialize.item (Serialize.wire Serialize.optional_none)
                      Serialize.AllWire.no_items))))
              tt Serialize.AllWireFields.no_fields)))))

deserialize-serialize_example :
    deserialize big_endian true (at (9 ∷ []) (serialize sample ++ (8 ∷ [])))
    ≡ ok (sample, at ((9 ∷ []) ++ serialize sample) (8 ∷ []))
deserialize-serialize_example =
    deserialize-serialize big_endian true sample (9 ∷ []) (8 ∷ []) big_endian-IsByteOrder
      sample-IsWire

abbrev pub some_true : ClarityValue
some_true =
    clarity_value (some (10 ∷ 3 ∷ []))
      (Value.optional_some (clarity_value (some (3 ∷ [])) (Value.bool true)))

some_true_read :
    deserialize big_endian true (at (9 ∷ []) (10 ∷ 3 ∷ 8 ∷ []))
    ≡ ok (some_true, at (9 ∷ 10 ∷ 3 ∷ []) (8 ∷ []))
unfolding deserialize inner_deserialize_read ◌>>◌ ◌>>=◌ read_exact from_u8 read_body finish
    slice_from position new_with_bytes
some_true_read = refl

deserialize-Keeps_example :
    Keeps (at (9 ∷ []) (10 ∷ 3 ∷ 8 ∷ [])) some_true (at (9 ∷ 10 ∷ 3 ∷ []) (8 ∷ []))
deserialize-Keeps_example =
    deserialize-Keeps big_endian some_true (at (9 ∷ []) (10 ∷ 3 ∷ 8 ∷ []))
      (at (9 ∷ 10 ∷ 3 ∷ []) (8 ∷ [])) big_endian-IsByteOrder some_true_read

deserialize-too_deep_example :
    deserialize big_endian true (at [] (replicate 16 10 ++ (3 ∷ [])))
    ≡ err (type_signature_too_deep 16)
deserialize-too_deep_example =
    deserialize-too_deep big_endian true (replicate 16 10) [] (3 ∷ [])
      (All-replicate IsWrapper 16 10 (inr (inr refl))) refl

deserialize-bad_prefix_example : deserialize big_endian false (at [] (10 ∷ 7 ∷ 15 ∷ 3 ∷ [])) ≡ hangs
deserialize-bad_prefix_example =
    deserialize-bad_prefix big_endian false (10 ∷ 7 ∷ []) 15 [] (3 ∷ [])
      (inr (inr refl), (inl refl, tt)) (omega arith)

deserialize-fuel_example :
    inner_deserialize_read big_endian (17 + 5) 0 true (at [] (10 ∷ 3 ∷ []))
    ≡ deserialize big_endian true (at [] (10 ∷ 3 ∷ []))
deserialize-fuel_example = deserialize-fuel big_endian true 5 (at [] (10 ∷ 3 ∷ []))

abbrev far_version : StandardPrincipalData
far_version = record { version = 32; hash_bytes = replicate 20 0 }

repr_string-panic_example :
    repr_string (λ bytes. bytes) (λ bytes. bytes) (Value.principal_standard far_version) ≡ panic
repr_string-panic_example =
    repr_string-panic (λ bytes. bytes) (λ bytes. bytes) far_version (omega arith)

list_signature : type_signature (Value.list inside_list) ≡ codes "(list 2 bool)"
unfolding type_signature decimal decimal_from
list_signature = refl

abbrev mainnet_principal : StandardPrincipalData
mainnet_principal = record { version = 22; hash_bytes = replicate 20 0xa4 }

abbrev principals : Items
principals =
    Items.item (kept (Value.principal_standard mainnet_principal))
      (Items.item (kept (Value.string_utf8 ((b'a' ∷ []) ∷ []))) Items.no_items)

principals-ArePrintable : ArePrintable principals
principals-ArePrintable =
    ((omega arith, All-replicate (λ b. b < 256) 20 0xa4 (omega arith)), ((omega arith, tt), tt))

repr_string-ok_example :
    (text : List ℕ) × (repr_string digest (λ bytes. bytes) (Value.list principals) ≡ ok text)
repr_string-ok_example =
    repr_string-ok digest (λ bytes. bytes) digest-IsSha256 (Value.list principals)
      principals-ArePrintable
