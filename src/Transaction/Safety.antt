-- ===== src/Transaction/Safety.antt =====
-- The deserializers of payloads and transactions in stacks_tx/deserialize.rs do not panic, and keep
-- what they have consumed.
use stacks_encoding_native_j.Prelude.{ℕ, ◌==◌, true, panic, ◌≢◌}
use stacks_encoding_native_j.Wire.Cursor.{Cursor}
use stacks_encoding_native_j.Wire.ByteOrder.{ByteOrder, IsByteOrder, big_endian, for_byte_order}
use stacks_encoding_native_j.Wire.Error.{unknown_payload_id}
use stacks_encoding_native_j.Wire.Frames.{
  Frames, Frames-pure, Frames-fail, Frames-fail_str, Frames-ok_or, Frames-ok_or_str, Frames-if,
  Frames-bind, Frames-position, Frames-exact, Frames-slice, Frames-be, Frames-vec, Frames-no_panic,
}
use stacks_encoding_native_j.Clarity.TypePrefix.{TypePrefix}
use stacks_encoding_native_j.Clarity.Frames.{Frames-name, Frames-deserialize}
use stacks_encoding_native_j.PostCondition.Frames.{Frames-address, Frames-post_condition}
use stacks_encoding_native_j.Transaction.Payload.{
  read_tx_principal, read_standard_data, read_contract_data, read_principal_of, read_principal_data,
  read_stacks_string, read_microblock_header, read_smart_contract, read_contract_call,
  read_token_transfer, read_contract_call_payload, read_smart_contract_payload,
  read_poison_microblock, read_coinbase, read_payload,
}
use stacks_encoding_native_j.Transaction.Frames.{Frames-auth}
use stacks_encoding_native_j.Transaction.Deserialize.{read_transaction}

module _ (n : ℕ) where
  Frames-tx_principal : Frames n read_tx_principal
  unfolding read_tx_principal
  Frames-tx_principal =
      Frames-bind n _ _ (Frames-exact n 1)
        λ v. Frames-bind n _ _ (Frames-exact n 20) λ bytes. Frames-pure n _

  Frames-standard_data : Frames n (read_standard_data big_endian)
  unfolding read_standard_data
  Frames-standard_data = Frames-bind n _ _ Frames-tx_principal λ p. Frames-pure n _

  Frames-contract_data : Frames n (read_contract_data big_endian)
  unfolding read_contract_data
  Frames-contract_data =
      Frames-bind n _ _ Frames-tx_principal
        λ p. Frames-bind n _ _ (Frames-name n) λ name. Frames-pure n _

  Frames-principal_of : (t : TypePrefix) → Frames n (read_principal_of big_endian t)
  unfolding read_principal_of
  Frames-principal_of TypePrefix.principal_standard = Frames-standard_data
  Frames-principal_of TypePrefix.principal_contract = Frames-contract_data
  Frames-principal_of _ = Frames-fail_str n

  Frames-principal_data : Frames n (read_principal_data big_endian)
  unfolding read_principal_data
  Frames-principal_data =
      Frames-bind n _ _ (Frames-exact n 1)
        λ header. Frames-bind n _ _ (Frames-ok_or_str n _) λ t. Frames-principal_of t

  Frames-string : Frames n (read_stacks_string big_endian)
  unfolding read_stacks_string
  Frames-string = Frames-bind n _ _ (Frames-be n 4) λ len. Frames-exact n len

  Frames-microblock_header : Frames n (read_microblock_header big_endian)
  unfolding read_microblock_header
  Frames-microblock_header = Frames-position n _ λ m. Frames-bind m _ _ (Frames-be m 1) λ v.
      Frames-bind m _ _ (Frames-be m 2) λ s. Frames-bind m _ _ (Frames-exact m 32) λ prev.
        Frames-bind m _ _ (Frames-exact m 32) λ root.
          Frames-bind m _ _ (Frames-exact m 65)
            λ sig. Frames-bind m _ _ (Frames-slice m) λ bytes. Frames-pure m _

  Frames-smart_contract : Frames n (read_smart_contract big_endian)
  unfolding read_smart_contract
  Frames-smart_contract =
      Frames-bind n _ _ (Frames-name n)
        λ name. Frames-bind n _ _ Frames-string λ code. Frames-pure n _

  Frames-contract_call : Frames n (read_contract_call big_endian)
  unfolding read_contract_call
  Frames-contract_call = Frames-bind n _ _ (Frames-address n) λ a.
      Frames-bind n _ _ (Frames-name n) λ contract. Frames-bind n _ _ (Frames-name n) λ function.
        Frames-bind n _ _ (Frames-be n 4) λ len.
          Frames-bind n _ _ (Frames-vec n _ len (Frames-deserialize n true)) λ args. Frames-pure n _

  Frames-token_transfer : Frames n (read_token_transfer big_endian)
  unfolding read_token_transfer
  Frames-token_transfer = Frames-bind n _ _ Frames-principal_data λ p.
      Frames-bind n _ _ (Frames-be n 8)
        λ amount. Frames-bind n _ _ (Frames-exact n 34) λ memo. Frames-pure n _

  Frames-call_payload : Frames n (read_contract_call_payload big_endian)
  unfolding read_contract_call_payload
  Frames-call_payload = Frames-bind n _ _ Frames-contract_call λ p. Frames-pure n _

  Frames-contract_payload : Frames n (read_smart_contract_payload big_endian)
  unfolding read_smart_contract_payload
  Frames-contract_payload = Frames-bind n _ _ Frames-smart_contract λ p. Frames-pure n _

  Frames-poison : Frames n (read_poison_microblock big_endian)
  unfolding read_poison_microblock
  Frames-poison =
      Frames-bind n _ _ Frames-microblock_header
        λ g. Frames-bind n _ _ Frames-microblock_header λ h. Frames-pure n _

  Frames-coinbase : Frames n (read_coinbase big_endian)
  unfolding read_coinbase
  Frames-coinbase = Frames-bind n _ _ (Frames-exact n 32) λ bytes. Frames-pure n _

  Frames-payload : Frames n (read_payload big_endian)
  unfolding read_payload
  Frames-payload = Frames-bind n _ _ (Frames-be n 1) λ t.
      Frames-if n (t == 0) _ _ Frames-token_transfer (
        Frames-if n (t == 2) _ _ Frames-call_payload (
          Frames-if n (t == 1) _ _ Frames-contract_payload (
            Frames-if n (t == 3) _ _ Frames-poison
              (Frames-if n (t == 4) _ _ Frames-coinbase (Frames-fail n (unknown_payload_id t))))))

Frames-transaction : (n : ℕ) → Frames n (read_transaction big_endian)
unfolding read_transaction
Frames-transaction n = Frames-bind n _ _ (Frames-be n 1) λ v.
    Frames-bind n _ _ (Frames-be n 4) λ chain. Frames-bind n _ _ (Frames-auth n) λ auth.
      Frames-bind n _ _ (Frames-be n 1) λ mode. Frames-position n _ λ m.
        Frames-bind m _ _ (Frames-be m 1) λ pc. Frames-bind m _ _ (Frames-be m 4) λ len.
          Frames-bind m _ _ (Frames-vec m _ len (Frames-post_condition m)) λ pcs.
            Frames-bind m _ _ (Frames-slice m) λ bytes.
              Frames-bind m _ _ (Frames-payload m) λ payload.
                Frames-bind m _ _ (Frames-ok_or m _ _)
                  λ anchor. Frames-bind m _ _ (Frames-ok_or m _ _) λ pcm. Frames-pure m _

-- With byte readers as documented, reading a transaction panics on no input.
pub read_transaction-no_panic :
    (b : ByteOrder) (c : Cursor) → IsByteOrder b → read_transaction b c ≢ panic
read_transaction-no_panic b c hb =
    for_byte_order (λ o. read_transaction o c ≢ panic)
      (Frames-no_panic (read_transaction big_endian) c (Frames-transaction 0)) b hb
