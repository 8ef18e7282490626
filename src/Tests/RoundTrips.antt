-- ===== src/Tests/RoundTrips.antt =====
-- Instances of the round trips of post-conditions and transactions.
use stacks_encoding_native_j.Prelude.{true}
use stacks_encoding_native_j.Transaction.Types.{contract_call}
use stacks_encoding_native_j.Transaction.Read.{IsRead, read_transaction-IsRead}
use stacks_encoding_native_j.Prelude.{◌≡◌, refl, arith, [], ◌∷◌, ◌++◌, replicate, some, ok}
use stacks_encoding_native_j.Wire.ByteOrder.{big_endian, big_endian-IsByteOrder}
use stacks_encoding_native_j.Wire.Laws.{at}
use stacks_encoding_native_j.Text.Utf8.{is_utf8, is_utf8_from, utf8_next, utf8_lead}
use stacks_encoding_native_j.Clarity.Types.{Value, clarity_value}
use stacks_encoding_native_j.Clarity.Serialize
use stacks_encoding_native_j.Clarity.Serialize.{serialize_value, IsName}
use stacks_encoding_native_j.PostCondition.Types.{
  TransactionPostCondition, nonfungible, standard, sent,
}
use stacks_encoding_native_j.PostCondition.Serialize.{condition_bytes, IsConditionWire, wire}
use stacks_encoding_native_j.PostCondition.Deserialize.{read_post_condition}
use stacks_encoding_native_j.PostCondition.RoundTrip.{read_post_condition-condition_bytes}
use stacks_encoding_native_j.Transaction.Types.{StacksTransaction}
use stacks_encoding_native_j.Transaction.Serialize.{
  conditions_bytes, transaction_bytes, IsTransactionWire, IsMultisigWire,
}
use stacks_encoding_native_j.Transaction.Auth.{is_p2wsh, is_compressed}
use stacks_encoding_native_j.Transaction.Deserialize.{read_transaction}
use stacks_encoding_native_j.Transaction.RoundTrip.{read_transaction-transaction_bytes}
use stacks_encoding_native_j.Tests.Transaction.{transaction, condition}

name-IsName : IsName (b'n' ∷ b'f' ∷ b't' ∷ [])
unfolding is_utf8 is_utf8_from utf8_next utf8_lead
name-IsName = record { name_length = omega arith; name_utf8 = refl }

-- A token that the holder sends, which is the number seven.
abbrev token_sent : TransactionPostCondition
token_sent =
    nonfungible (standard (record { version = 22; hash160_bytes = replicate 20 1 }))
      (record {
        contract_address = record { version = 26; hash160_bytes = replicate 20 2 };
        contract_name = b'n' ∷ b'f' ∷ b't' ∷ [];
        asset_name = b'n' ∷ b'f' ∷ b't' ∷ [];
      })
      (clarity_value (some (serialize_value (Value.uint 7))) (Value.uint 7)) sent

token_sent-IsConditionWire : IsConditionWire token_sent
token_sent-IsConditionWire = (
  record { version_u8 = omega arith; hash_length = refl },
  record {
    address = record { version_u8 = omega arith; hash_length = refl };
    contract = name-IsName;
    asset = name-IsName;
  },
  wire (Serialize.uint 7 (omega arith)),
)

read_post_condition-condition_bytes_example :
    read_post_condition big_endian (at (9 ∷ []) (condition_bytes token_sent ++ (8 ∷ [])))
    ≡ ok (token_sent, at (9 ∷ condition_bytes token_sent) (8 ∷ []))
read_post_condition-condition_bytes_example =
    read_post_condition-condition_bytes big_endian token_sent (9 ∷ []) (8 ∷ [])
      big_endian-IsByteOrder token_sent-IsConditionWire

abbrev with_condition : StacksTransaction
with_condition = record transaction {
  post_conditions_serialized =
      conditions_bytes (record transaction { post_conditions = token_sent ∷ [] });
  post_conditions = token_sent ∷ [];
  payload = contract_call (record {
    address = record { version = 22; hash160_bytes = replicate 20 1 };
    contract_name = b'n' ∷ b'f' ∷ b't' ∷ [];
    function_name = b'n' ∷ b'f' ∷ b't' ∷ [];
    function_args =
        clarity_value (some (serialize_value (Value.uint 7))) (Value.uint 7)
        ∷ clarity_value (some (serialize_value (Value.bool true))) (Value.bool true)
        ∷ [];
  });
}

condition-IsMultisigWire : IsMultisigWire condition
unfolding is_p2wsh is_compressed
condition-IsMultisigWire = record {
  signer_length = refl;
  nonce_u64 = omega arith;
  tx_fee_u64 = omega arith;
  count_u32 = omega arith;
  all_fields = (refl, (refl, tt));
  required_u16 = omega arith;
  checked = (refl, refl);
}

with_condition-IsTransactionWire : IsTransactionWire with_condition
unfolding conditions_bytes
with_condition-IsTransactionWire = record {
  chain_u32 = omega arith;
  auth = condition-IsMultisigWire;
  count_u32 = omega arith;
  all_conditions = (token_sent-IsConditionWire, tt);
  kept = refl;
  payload = record {
    address = record { version_u8 = omega arith; hash_length = refl };
    contract = name-IsName;
    function = name-IsName;
    count_u32 = omega arith;
    all_args = (
      Serialize.wire (Serialize.uint 7 (omega arith)),
      (Serialize.wire (Serialize.bool true), tt),
    );
  };
}

with_condition_read :
    read_transaction big_endian (at [] (transaction_bytes with_condition ++ (8 ∷ [])))
    ≡ ok (with_condition, at (transaction_bytes with_condition) (8 ∷ []))
with_condition_read =
    read_transaction-transaction_bytes big_endian with_condition [] (8 ∷ []) big_endian-IsByteOrder
      with_condition-IsTransactionWire

read_transaction-transaction_bytes_example :
    read_transaction big_endian (at [] (transaction_bytes with_condition ++ (8 ∷ [])))
    ≡ ok (with_condition, at (transaction_bytes with_condition) (8 ∷ []))
read_transaction-transaction_bytes_example =
    read_transaction-transaction_bytes big_endian with_condition [] (8 ∷ []) big_endian-IsByteOrder
      with_condition-IsTransactionWire

read_transaction-IsRead_example : IsRead with_condition
read_transaction-IsRead_example =
    read_transaction-IsRead big_endian with_condition
      (at [] (transaction_bytes with_condition ++ (8 ∷ [])))
      (at (transaction_bytes with_condition) (8 ∷ [])) with_condition_read
