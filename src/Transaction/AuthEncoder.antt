-- ===== src/Transaction/AuthEncoder.antt =====
-- The encoders of authorizations in stacks_tx/neon_encoder.rs.
use stacks_encoding_native_j.Prelude.{
  ℕ, List, [], ◌∷◌, ok, ◌>>=◌, or_panic, length, if◌then◌else◌, ltb, ◌^◌, Option, none, some,
}
use stacks_encoding_native_j.Text.Decimal.{decimal}
use stacks_encoding_native_j.Js.{
  JsObject, JsItems, Encoded, string, number, object, array, empty_object, no_items, item, ◌&◌,
  ◌is◌,
}
use stacks_encoding_native_j.Address.StacksAddress.{
  StacksAddress, AddressHashMode, hash_mode_from_u8, to_version_mainnet, to_version_testnet,
}
use stacks_encoding_native_j.Clarity.Repr.{encode_hex}
use stacks_encoding_native_j.Transaction.Types.{
  TransactionVersion, SinglesigSpendingCondition, MultisigSpendingCondition, TransactionAuth,
  TransactionSpendingCondition, TransactionAuthField, mainnet, testnet,
}
use stacks_encoding_native_j.Transaction.Auth.{is_compressed}
use stacks_encoding_native_j.Transaction.Codes.{
  auth_flags_u8, auth_field_id_u8, singlesig_u8, multisig_u8, key_encoding_u8, auth_standard,
  auth_sponsored, public_key_compressed, public_key_uncompressed, signature_compressed,
  signature_uncompressed,
}
use stacks_encoding_native_j.Transaction.ConditionEncoder.{serialize_stacks_address}

-- The match on `extra_ctx.transaction_version`.
unfoldable pub to_version : TransactionVersion → AddressHashMode → ℕ
to_version mainnet hash_mode = to_version_mainnet hash_mode
to_version testnet hash_mode = to_version_testnet hash_mode

-- `StacksAddress::new`
abbrev pub stacks_address : ℕ → List ℕ → StacksAddress
stacks_address version bytes = record { version = version; hash160_bytes = bytes }

-- `try_into` for a `u32`.
unfoldable pub u32_from_usize : ℕ → Option ℕ
u32_from_usize n = if ltb n (2 ^ 32) then some n else none

module _ (sha256 : List ℕ → List ℕ) (hex_encode : List ℕ → List ℕ) where
  unfoldable pub serialize_auth_field : TransactionAuthField → JsObject → JsObject
  serialize_auth_field (TransactionAuthField.public_key pubkey) obj =
      let field_id =
        if pubkey.is_compressed then public_key_compressed else public_key_uncompressed in
      obj
      & "type_id" is number (auth_field_id_u8 field_id)
      & "public_key" is string (encode_hex sha256 hex_encode pubkey.key)
  serialize_auth_field (TransactionAuthField.signature key_encoding sig) obj =
      let field_id =
        if is_compressed key_encoding then signature_compressed else signature_uncompressed in
      obj
      & "type_id" is number (auth_field_id_u8 field_id)
      & "signature" is string (encode_hex sha256 hex_encode sig)

  unfoldable pub serialize_auth_fields : List TransactionAuthField → JsItems
  serialize_auth_fields [] = no_items
  serialize_auth_fields (x ∷ fields) =
      item (object (serialize_auth_field x empty_object)) (serialize_auth_fields fields)

  -- The address of a signer, for the hash mode's number.
  unfoldable pub serialize_signer : TransactionVersion → ℕ → List ℕ → Encoded
  serialize_signer version hash_mode_int signer = do
    hash_mode ← or_panic (hash_mode_from_u8 hash_mode_int)
    serialize_stacks_address sha256 hex_encode
        (stacks_address (to_version version hash_mode) signer) empty_object

  unfoldable pub serialize_singlesig :
      SinglesigSpendingCondition → TransactionVersion → JsObject → Encoded
  serialize_singlesig c version obj = do
    let hash_mode_int = singlesig_u8 c.hash_mode
    let started = obj & "hash_mode" is number hash_mode_int
    stacks_address_obj ← serialize_signer version hash_mode_int c.signer
    ok (
        started
        & "signer" is object stacks_address_obj
        & "nonce" is string (decimal c.nonce)
        & "tx_fee" is string (decimal c.tx_fee)
        & "key_encoding" is number (key_encoding_u8 c.key_encoding)
        & "signature" is string (encode_hex sha256 hex_encode c.signature))

  unfoldable pub serialize_multisig :
      MultisigSpendingCondition → TransactionVersion → JsObject → Encoded
  serialize_multisig c version obj = do
    let hash_mode_int = multisig_u8 c.hash_mode
    let started = obj & "hash_mode" is number hash_mode_int
    stacks_address_obj ← serialize_signer version hash_mode_int c.signer
    len ← or_panic (u32_from_usize (length c.fields))
    ok (
        started
        & "signer" is object stacks_address_obj
        & "nonce" is string (decimal c.nonce)
        & "tx_fee" is string (decimal c.tx_fee)
        & "fields" is array len (serialize_auth_fields c.fields)
        & "signatures_required" is number c.signatures_required)

  unfoldable pub serialize_spending_condition :
      TransactionSpendingCondition → TransactionVersion → JsObject → Encoded
  serialize_spending_condition (TransactionSpendingCondition.singlesig c) = serialize_singlesig c
  serialize_spending_condition (TransactionSpendingCondition.multisig c) = serialize_multisig c

  unfoldable pub serialize_auth : TransactionAuth → TransactionVersion → JsObject → Encoded
  serialize_auth (TransactionAuth.standard origin) version obj = do
    let typed = obj & "type_id" is number (auth_flags_u8 auth_standard)
    origin_obj ← serialize_spending_condition origin version empty_object
    ok (typed & "origin_condition" is object origin_obj)
  serialize_auth (TransactionAuth.sponsored origin sponsor) version obj = do
    let typed = obj & "type_id" is number (auth_flags_u8 auth_sponsored)
    origin_obj ← serialize_spending_condition origin version empty_object
    sponsor_obj ← serialize_spending_condition sponsor version empty_object
    ok (typed & "origin_condition" is object origin_obj & "sponsor_condition" is object sponsor_obj)
