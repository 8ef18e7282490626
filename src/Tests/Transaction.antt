-- ===== src/Tests/Transaction.antt =====
-- A transaction with a multisig condition, read by stacks_tx/deserialize.rs, and instances of its
-- theorems.
use stacks_encoding_native_j.Wire.ByteOrder.{big_endian-IsByteOrder}
use stacks_encoding_native_j.Prelude.{
  ℕ, ◌≡◌, ◌≢◌, refl, List, [], ◌∷◌, ◌++◌, true, replicate, ok, panic,
}
use stacks_encoding_native_j.Wire.Cursor.{position}
use stacks_encoding_native_j.Wire.Reader.{
  read_be, read_exact, from_be_bytes, from_be_bytes_acc, set_position, read_vec, slice_from, ◌>>=◌,
  ◌>>◌,
}
use stacks_encoding_native_j.Wire.ByteOrder.{big_endian}
use stacks_encoding_native_j.Wire.Laws.{at}
use stacks_encoding_native_j.Transaction.Types.{
  StacksTransaction, TransactionAuth, MultisigSpendingCondition, mainnet, any, deny, p2wsh,
  signature, compressed, public_key, multisig, coinbase, singlesig_from_u8, multisig_from_u8,
}
use stacks_encoding_native_j.Transaction.Auth.{
  check_multisig, read_auth, read_standard_auth, read_spending_condition, by_singlesig, by_multisig,
  read_multisig_condition, read_multisig, read_auth_field, read_signature, read_public_key,
  count_fields, checked_succ, is_compressed, is_p2wsh,
}
use stacks_encoding_native_j.Transaction.Payload.{read_payload, read_coinbase}
use stacks_encoding_native_j.Transaction.Multisig.{verdict, check_multisig-eq}
use stacks_encoding_native_j.Transaction.Deserialize.{
  read_transaction, anchor_mode_from_u8, post_condition_mode_from_u8, transaction_version,
}
use stacks_encoding_native_j.Transaction.Checked.{IsCheckedAuth, read_transaction-IsCheckedAuth}
use stacks_encoding_native_j.Transaction.Safety.{read_transaction-no_panic}

-- One signature and one key behind p2wsh, with one signature required.
abbrev auth_bytes : List ℕ
auth_bytes =
    4 ∷ 3 ∷ replicate 20 1
    ++ (0 ∷ 0 ∷ 0 ∷ 0 ∷ 0 ∷ 0 ∷ 0 ∷ 5 ∷ 0 ∷ 0 ∷ 0 ∷ 0 ∷ 0 ∷ 0 ∷ 0 ∷ 100 ∷ 0 ∷ 0 ∷ 0 ∷ 2 ∷ 2 ∷ [])
    ++ replicate 65 6
    ++ (0 ∷ replicate 33 7)
    ++ (0 ∷ 1 ∷ [])

abbrev pub input : List ℕ
input = (0 ∷ 0 ∷ 0 ∷ 0 ∷ 1 ∷ []) ++ auth_bytes ++ (3 ∷ 2 ∷ 0 ∷ 0 ∷ 0 ∷ 0 ∷ 4 ∷ []) ++ replicate 32 9

abbrev pub condition : MultisigSpendingCondition
condition = record {
  hash_mode = p2wsh;
  signer = replicate 20 1;
  nonce = 5;
  tx_fee = 100;
  fields =
      signature compressed (replicate 65 6)
      ∷ public_key (record { key = replicate 33 7; is_compressed = true })
      ∷ [];
  signatures_required = 1;
}

abbrev pub transaction : StacksTransaction
transaction = record {
  version = mainnet;
  chain_id = 1;
  auth = TransactionAuth.standard (multisig condition);
  anchor_mode = any;
  post_conditions_serialized = 2 ∷ 0 ∷ 0 ∷ 0 ∷ 0 ∷ [];
  post_condition_mode = deny;
  post_conditions = [];
  payload = coinbase (replicate 32 9);
}

pub transaction_read : read_transaction big_endian (at [] input) ≡ ok (transaction, at input [])
unfolding read_transaction ◌>>=◌ ◌>>◌ read_be read_exact read_auth from_be_bytes from_be_bytes_acc
    read_standard_auth read_spending_condition set_position by_singlesig singlesig_from_u8
    by_multisig multisig_from_u8 read_multisig_condition read_multisig position read_vec
    read_auth_field read_signature read_public_key check_multisig count_fields checked_succ
    is_compressed is_p2wsh slice_from read_payload read_coinbase anchor_mode_from_u8
    post_condition_mode_from_u8 transaction_version
transaction_read = refl

read_transaction-IsCheckedAuth_example : IsCheckedAuth transaction.auth
read_transaction-IsCheckedAuth_example =
    read_transaction-IsCheckedAuth big_endian transaction (at [] input) (at input [])
      transaction_read

read_transaction-no_panic_example : read_transaction big_endian (at [] input) ≢ panic
read_transaction-no_panic_example =
    read_transaction-no_panic big_endian (at [] input) big_endian-IsByteOrder

check_multisig-eq_example : check_multisig condition (at input []) ≡ verdict condition (at input [])
check_multisig-eq_example = check_multisig-eq condition (at input [])
