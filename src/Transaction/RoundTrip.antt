-- ===== src/Transaction/RoundTrip.antt =====
-- `StacksTransaction::deserialize` of stacks_tx/deserialize.rs behind the wire format of Serialize.
use stacks_encoding_native_j.Prelude.{
  ℕ, ◌≡◌, refl, List, [], ◌∷◌, ◌++◌, length, flatten, map, some, ok, append_assoc, ap, sym,
}
use stacks_encoding_native_j.Wire.Cursor.{Cursor}
use stacks_encoding_native_j.Wire.Reader.{pure, ◌>>=◌, ok_or}
use stacks_encoding_native_j.Wire.Error.{invalid_anchor_mode, invalid_post_condition_mode}
use stacks_encoding_native_j.Wire.ByteOrder.{ByteOrder, IsByteOrder, big_endian, for_byte_order}
use stacks_encoding_native_j.Wire.Laws.{
  Reads, Reads-bind, Reads-be, Reads-byte, Reads-tag, Reads-last, at, to_be,
}
use stacks_encoding_native_j.Wire.Marked.{
  ReadsBehind-start, ReadsBehind-bind, ReadsBehind-slice, Reads-vec,
}
use stacks_encoding_native_j.PostCondition.Serialize.{condition_bytes, IsConditionWire}
use stacks_encoding_native_j.PostCondition.RoundTrip.{Reads-post_condition}
use stacks_encoding_native_j.Transaction.Types.{
  StacksTransaction, TransactionVersion, TransactionAnchorMode, TransactionPostConditionMode,
  mainnet, testnet, on_chain_only, off_chain_only, any, allow, deny,
}
use stacks_encoding_native_j.Transaction.Codes.{
  transaction_version_u8, anchor_mode_u8, post_condition_mode_u8,
}
use stacks_encoding_native_j.Transaction.Deserialize.{
  read_transaction, transaction_version, anchor_mode_from_u8, post_condition_mode_from_u8,
}
use stacks_encoding_native_j.Transaction.Serialize.{
  payload_bytes, conditions_bytes, transaction_bytes, IsTransactionWire,
}
use stacks_encoding_native_j.Transaction.AuthRoundTrip.{Reads-auth}
use stacks_encoding_native_j.Transaction.PayloadRoundTrip.{Reads-payload}

transaction_version-transaction_version_u8 :
    (v : TransactionVersion) → transaction_version (transaction_version_u8 v) ≡ v
unfolding transaction_version transaction_version_u8
transaction_version-transaction_version_u8 mainnet = refl
transaction_version-transaction_version_u8 testnet = refl

anchor_mode_from_u8-anchor_mode_u8 :
    (m : TransactionAnchorMode) → anchor_mode_from_u8 (anchor_mode_u8 m) ≡ some m
unfolding anchor_mode_from_u8 anchor_mode_u8
anchor_mode_from_u8-anchor_mode_u8 on_chain_only = refl
anchor_mode_from_u8-anchor_mode_u8 off_chain_only = refl
anchor_mode_from_u8-anchor_mode_u8 any = refl

post_condition_mode_from_u8-post_condition_mode_u8 :
    (m : TransactionPostConditionMode)
    → post_condition_mode_from_u8 (post_condition_mode_u8 m) ≡ some m
unfolding post_condition_mode_from_u8 post_condition_mode_u8
post_condition_mode_from_u8-post_condition_mode_u8 allow = refl
post_condition_mode_from_u8-post_condition_mode_u8 deny = refl

-- The modes pass their checks, and the record is the transaction.
modes_checked :
    (tx : StacksTransaction)
    → tx.post_conditions_serialized ≡ conditions_bytes tx
    → (c : Cursor)
    → (ok_or
            (anchor_mode_from_u8 (anchor_mode_u8 tx.anchor_mode))
            (invalid_anchor_mode (anchor_mode_u8 tx.anchor_mode))
          >>= λ anchor_mode.
              ok_or
                (post_condition_mode_from_u8 (post_condition_mode_u8 tx.post_condition_mode))
                (invalid_post_condition_mode (post_condition_mode_u8 tx.post_condition_mode))
              >>= λ post_condition_mode. pure (record tx {
                version = transaction_version (transaction_version_u8 tx.version);
                anchor_mode = anchor_mode;
                post_conditions_serialized = conditions_bytes tx;
                post_condition_mode = post_condition_mode;
              }))
        c
      ≡ ok (tx, c)
unfolding ◌>>=◌
modes_checked tx kept c =
    rw
      (
        anchor_mode_from_u8-anchor_mode_u8 tx.anchor_mode,
        post_condition_mode_from_u8-post_condition_mode_u8 tx.post_condition_mode,
        transaction_version-transaction_version_u8 tx.version,
      )
      (ap (λ t. ok (record tx { post_conditions_serialized = t }, c)) (sym kept))

Reads-transaction :
    (tx : StacksTransaction)
    → IsTransactionWire tx
    → Reads (read_transaction big_endian) (transaction_bytes tx) tx
unfolding read_transaction transaction_bytes conditions_bytes
Reads-transaction tx h =
    let mode = post_condition_mode_u8 tx.post_condition_mode in
    let conditions = tx.post_conditions in
    let encoded = flatten (map condition_bytes conditions) in
    Reads-tag _ (transaction_version_u8 tx.version) _ tx (
      Reads-bind _ _ _ _ _ _ (Reads-be 4 tx.chain_id h.chain_u32) (
        Reads-bind _ _ _ _ _ _ (Reads-auth tx.auth h.auth) (
          Reads-tag _ (anchor_mode_u8 tx.anchor_mode) _ tx (
            ReadsBehind-start _ _ _ (
              rw (append_assoc (to_be 4 (length conditions)) encoded (payload_bytes tx.payload)) (
                ReadsBehind-bind [] _ _ (mode ∷ []) _ mode tx (Reads-byte mode) (
                  ReadsBehind-bind _ _ _ _ _ _ _ (Reads-be 4 (length conditions) h.count_u32) (
                    ReadsBehind-bind _ _ _ encoded _ conditions tx
                      (Reads-vec IsConditionWire _ condition_bytes Reads-post_condition conditions
                        h.all_conditions)
                      (ReadsBehind-slice _ _ _ tx (
                        Reads-last _ _ _ _ _ (Reads-payload tx.payload h.payload)
                          (modes_checked tx h.kept)))))))))))

-- With byte readers as documented: a transaction that has an encoding in the wire format, which
-- keeps the bytes of its post-conditions and whose spending conditions pass their checks, is read
-- back from its encoding at any place of the input, and exactly the encoding is consumed.
pub read_transaction-transaction_bytes :
    (b : ByteOrder) (tx : StacksTransaction) (pre post : List ℕ)
    → IsByteOrder b
    → IsTransactionWire tx
    → read_transaction b (at pre (transaction_bytes tx ++ post))
      ≡ ok (tx, at (pre ++ transaction_bytes tx) post)
read_transaction-transaction_bytes b tx pre post hb h =
    for_byte_order (λ o. Reads (read_transaction o) (transaction_bytes tx) tx)
      (Reads-transaction tx h) b hb pre post
