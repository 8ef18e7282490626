-- ===== src/Entry/Total.antt =====
-- When the entry points of src/stacks_tx/mod.rs and src/clarity_value/mod.rs return an object.
use stacks_encoding_native_j.Prelude.{
  ℕ, ◌≡◌, List, Option, true, ok, Returns, Returns-ok, Returns-bind, Returns-map_err,
}
use stacks_encoding_native_j.Wire.Cursor.{Cursor}
use stacks_encoding_native_j.Wire.ByteOrder.{ByteOrder}
use stacks_encoding_native_j.Js.{JsValue, empty_object}
use stacks_encoding_native_j.Address.Crockford.Check.{IsSha256}
use stacks_encoding_native_j.Clarity.Types.{ClarityValue}
use stacks_encoding_native_j.Clarity.Deserialize.{deserialize}
use stacks_encoding_native_j.Clarity.Bounds.Read.{deserialize-IsBounded}
use stacks_encoding_native_j.Clarity.EncoderTotal.{HasAddressesOf, Returns-decode_clarity_val}
use stacks_encoding_native_j.Transaction.Types.{StacksTransaction}
use stacks_encoding_native_j.Transaction.Deserialize.{read_transaction}
use stacks_encoding_native_j.Transaction.Read.{read_transaction-IsRead}
use stacks_encoding_native_j.Transaction.EncoderTotal.{HasTransactionAddresses, Returns-transaction}
use stacks_encoding_native_j.Entry.Arguments.{JsArgument, cursor_new, arg_bytes, arg_as_bytes}
use stacks_encoding_native_j.Entry.Values.{decode_clarity_value}
use stacks_encoding_native_j.Entry.Transactions.{decode_transaction, read_with_id}

module _ (b : ByteOrder) (sha256 : List ℕ → List ℕ) (hex_encode : List ℕ → List ℕ)
    (hex_decode : List ℕ → Option (List ℕ)) (h : IsSha256 sha256) where
  Returns-value :
      (arg : Option JsArgument) (bytes : List ℕ) (v : ClarityValue) (c : Cursor)
      → arg_bytes hex_decode arg ≡ ok bytes
      → deserialize b true (cursor_new bytes) ≡ ok (v, c)
      → HasAddressesOf v
      → Returns (decode_clarity_value b sha256 hex_encode hex_decode arg)
  unfolding decode_clarity_value
  Returns-value arg bytes v c e r a =
      rw (e, r)
        (Returns-bind _ _
          (Returns-map_err _ _ (
            Returns-decode_clarity_val sha256 hex_encode h true 16 v bytes empty_object
              (deserialize-IsBounded b true v (cursor_new bytes) c r) a))
          λ root. Returns-ok _)

  -- For a hash function with digests of 32 bytes: if the argument's bytes are read as a value whose
  -- principals have versions below 32 and hashes of bytes, at every depth, then
  -- `decode_clarity_value` returns an object.
  pub decode_clarity_value-ok :
      (arg : Option JsArgument) (bytes : List ℕ) (v : ClarityValue) (c : Cursor)
      → arg_bytes hex_decode arg ≡ ok bytes
      → deserialize b true (cursor_new bytes) ≡ ok (v, c)
      → HasAddressesOf v
      → (result : JsValue) × (decode_clarity_value b sha256 hex_encode hex_decode arg ≡ ok result)
  decode_clarity_value-ok arg bytes v c e r a =
      let built = Returns-value arg bytes v c e r a in (built.result, built.returned)

  module _ (sha512_256 : List ℕ → List ℕ) where
    Returns-tx :
        (arg : Option JsArgument) (bytes : List ℕ) (tx : StacksTransaction) (c : Cursor)
        → arg_bytes hex_decode arg ≡ ok bytes
        → read_transaction b (cursor_new bytes) ≡ ok (tx, c)
        → HasTransactionAddresses tx
        → Returns (decode_transaction b sha256 sha512_256 hex_encode hex_decode arg)
    unfolding decode_transaction arg_as_bytes read_with_id
    Returns-tx arg bytes tx c e r a =
        rw (e, r)
          (Returns-bind _ _
            (Returns-map_err _ _ (
              Returns-transaction sha256 hex_encode h tx _
                (read_transaction-IsRead b tx (cursor_new bytes) c r) a))
            λ json. Returns-ok _)

    -- For a hash function with digests of 32 bytes: if the argument's bytes are read as a
    -- transaction whose addresses have versions below 32 and hashes of bytes, in all post-
    -- conditions and arguments at every depth, whose signers' hashes are bytes, and whose multisig
    -- conditions have fewer than 2 ^ 32 fields, then `decode_transaction` returns an object.
    pub decode_transaction-ok :
        (arg : Option JsArgument) (bytes : List ℕ) (tx : StacksTransaction) (c : Cursor)
        → arg_bytes hex_decode arg ≡ ok bytes
        → read_transaction b (cursor_new bytes) ≡ ok (tx, c)
        → HasTransactionAddresses tx
        → (result : JsValue) × (decode_transaction b sha256 sha512_256 hex_encode hex_decode arg
            ≡ ok result)
    decode_transaction-ok arg bytes tx c e r a =
        let built = Returns-tx arg bytes tx c e r a in (built.result, built.returned)
