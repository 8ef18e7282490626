-- ===== src/Transaction/PayloadRoundTrip.antt =====
-- The payloads of stacks_tx/deserialize.rs behind the wire format of Serialize.
use stacks_encoding_native_j.Prelude.{
  ℕ, ◌^◌, ◌<◌, ◌≡◌, refl, List, [], ◌∷◌, ◌++◌, length, flatten, map, true, ok, append_assoc, ap,
  sym, ◌∙◌,
}
use stacks_encoding_native_j.Wire.ByteOrder.{big_endian, big_endian-IsByteOrder}
use stacks_encoding_native_j.Wire.Laws.{
  Reads, Reads-map, Reads-bind, Reads-exact, Reads-be, Reads-byte, Reads-tag, Reads-return, to_be,
}
use stacks_encoding_native_j.Wire.Marked.{
  ReadsBehind-start, ReadsBehind-bind, ReadsBehind-end, Reads-vec,
}
use stacks_encoding_native_j.Clarity.TypePrefix.{TypePrefix, to_u8, from_u8-to_u8}
use stacks_encoding_native_j.Clarity.Types.{StandardPrincipalData, ClarityValue}
use stacks_encoding_native_j.Clarity.Serialize.{serialize, serialize_name, IsName, IsWire}
use stacks_encoding_native_j.Clarity.NamesRoundTrip.{Reads-name}
use stacks_encoding_native_j.Clarity.Deserialize.{deserialize}
use stacks_encoding_native_j.Clarity.RoundTrip.{deserialize-serialize}
use stacks_encoding_native_j.PostCondition.Serialize.{address_bytes}
use stacks_encoding_native_j.PostCondition.RoundTrip.{Reads-address}
use stacks_encoding_native_j.Transaction.Types.{
  PrincipalData, TransactionContractCall, TransactionSmartContract, StacksMicroblockHeader,
  TransactionPayload, token_transfer, contract_call, smart_contract, poison_microblock, coinbase,
}
use stacks_encoding_native_j.Transaction.Payload.{
  read_tx_principal, read_standard_data, read_contract_data, read_principal_of, read_principal_data,
  read_stacks_string, read_microblock_header, read_smart_contract, read_contract_call,
  read_token_transfer, read_contract_call_payload, read_smart_contract_payload,
  read_poison_microblock, read_coinbase, read_payload,
}
use stacks_encoding_native_j.Transaction.Serialize.{
  account_bytes, principal_data_bytes, header_bytes, payload_bytes, IsHeaderWire, IsCallWire,
  IsPrincipalWire, IsPayloadWire,
}

Reads-account :
    (p : StandardPrincipalData)
    → length p.hash_bytes ≡ 20
    → Reads read_tx_principal (account_bytes p) p
unfolding read_tx_principal account_bytes
Reads-account p h =
    Reads-bind _ _ (p.version ∷ []) p.hash_bytes (p.version ∷ []) p
      (Reads-exact 1 (p.version ∷ []) refl) (Reads-map _ _ _ _ (Reads-exact 20 p.hash_bytes h))

-- A prefix in one byte, and what depends on it.
Reads-prefix :
    (prefix : TypePrefix) (ys : List ℕ) (p : PrincipalData)
    → Reads (read_principal_of big_endian prefix) ys p
    → Reads (read_principal_data big_endian) (to_u8 prefix ∷ ys) p
unfolding read_principal_data
Reads-prefix prefix ys p h =
    Reads-bind _ _ (to_u8 prefix ∷ []) ys (to_u8 prefix ∷ []) p
      (Reads-exact 1 (to_u8 prefix ∷ []) refl)
      (rw (from_u8-to_u8 prefix) (Reads-return _ prefix ys p h))

Reads-principal_data :
    (p : PrincipalData)
    → IsPrincipalWire p
    → Reads (read_principal_data big_endian) (principal_data_bytes p) p
unfolding principal_data_bytes read_principal_of read_standard_data read_contract_data to_u8
Reads-principal_data (PrincipalData.standard p) h =
    Reads-prefix TypePrefix.principal_standard _ _ (Reads-map _ _ _ _ (Reads-account p h))
Reads-principal_data (PrincipalData.contract q) h = Reads-prefix TypePrefix.principal_contract _ _ (
    Reads-bind _ _ _ _ _ _ (Reads-account q.issuer h.0) (Reads-map _ _ _ _ (Reads-name q.name h.1)))

Reads-argument :
    (v : ClarityValue) → IsWire true 16 v → Reads (deserialize big_endian true) (serialize v) v
Reads-argument v h pre post =
    deserialize-serialize big_endian true v pre post big_endian-IsByteOrder h

Reads-call :
    (c : TransactionContractCall)
    → IsCallWire c
    → Reads
        (read_contract_call big_endian)
        (address_bytes c.address
          ++ (serialize_name c.contract_name
              ++ (serialize_name c.function_name
                  ++ (to_be 4 (length c.function_args)
                      ++ flatten (map serialize c.function_args)))))
        c
unfolding read_contract_call
Reads-call c h = Reads-bind _ _ _ _ _ _ (Reads-address c.address h.address) (
    Reads-bind _ _ _ _ _ _ (Reads-name c.contract_name h.contract) (
      Reads-bind _ _ _ _ _ _ (Reads-name c.function_name h.function) (
        Reads-bind _ _ _ _ _ _ (Reads-be 4 (length c.function_args) h.count_u32) (
          Reads-map _ _ _ _ (
            Reads-vec (λ v. IsWire true 16 v) _ serialize Reads-argument c.function_args
              h.all_args)))))

header_bytes_assoc :
    (h : StacksMicroblockHeader)
    → h.version ∷ (((to_be 2 h.sequence ++ h.prev_block) ++ h.tx_merkle_root) ++ h.signature)
      ≡ header_bytes h
unfolding header_bytes
header_bytes_assoc h =
    ap (λ t. h.version ∷ t)
      (append_assoc (to_be 2 h.sequence ++ h.prev_block) h.tx_merkle_root h.signature
        ∙ append_assoc (to_be 2 h.sequence) h.prev_block (h.tx_merkle_root ++ h.signature))

-- The header is read, and then its bytes are taken from where it started.
Reads-header :
    (h : StacksMicroblockHeader)
    → IsHeaderWire h
    → Reads (read_microblock_header big_endian) (header_bytes h) h
unfolding read_microblock_header header_bytes
Reads-header h w = ReadsBehind-start _ _ _ (
    ReadsBehind-bind [] _ _ (h.version ∷ []) _ h.version h (Reads-byte h.version) (
      ReadsBehind-bind _ _ _ _ _ _ _ (Reads-be 2 h.sequence w.sequence_u16) (
        ReadsBehind-bind _ _ _ _ _ _ _ (Reads-exact 32 h.prev_block w.prev_length) (
          ReadsBehind-bind _ _ _ _ _ _ _ (Reads-exact 32 h.tx_merkle_root w.root_length) (
            ReadsBehind-end _ _ _ _ _ _ (Reads-exact 65 h.signature w.signature_length) λ c.
              ap (λ t. ok (record h { serialized_bytes = t }, c))
                (header_bytes_assoc h ∙ sym w.kept))))))

Reads-contract :
    (c : TransactionSmartContract)
    → IsName c.name
    → length c.code_body < 256 ^ 4
    → Reads
        (read_smart_contract big_endian)
        (serialize_name c.name ++ (to_be 4 (length c.code_body) ++ c.code_body))
        c
unfolding read_smart_contract read_stacks_string
Reads-contract c h l = Reads-bind _ _ _ _ _ _ (Reads-name c.name h) (
    Reads-map _ _ _ _ (
      Reads-bind _ _ _ _ _ _ (Reads-be 4 (length c.code_body) l)
        (Reads-exact (length c.code_body) c.code_body refl)))

pub Reads-payload :
    (p : TransactionPayload) → IsPayloadWire p → Reads (read_payload big_endian) (payload_bytes p) p
unfolding read_payload payload_bytes read_token_transfer read_smart_contract_payload
    read_contract_call_payload read_poison_microblock read_coinbase
Reads-payload (token_transfer p amount memo) h = Reads-tag _ 0 _ _ (
    Reads-bind _ _ _ _ _ _ (Reads-principal_data p h.0) (
      Reads-bind _ _ _ _ _ _ (Reads-be 8 amount h.1)
        (Reads-map _ _ memo memo (Reads-exact 34 memo h.2))))
Reads-payload (smart_contract c) h =
    Reads-tag _ 1 _ _ (Reads-map _ _ _ _ (Reads-contract c h.0 h.1))
Reads-payload (contract_call c) h = Reads-tag _ 2 _ _ (Reads-map _ _ _ _ (Reads-call c h))
Reads-payload (poison_microblock h1 h2) h =
    Reads-tag _ 3 _ _
      (Reads-bind _ _ _ _ _ _ (Reads-header h1 h.0) (Reads-map _ _ _ _ (Reads-header h2 h.1)))
Reads-payload (coinbase bytes) h =
    Reads-tag _ 4 _ _ (Reads-map _ _ bytes bytes (Reads-exact 32 bytes h))
