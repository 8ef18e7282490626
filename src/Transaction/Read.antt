-- ===== src/Transaction/Read.antt =====
-- What stacks_tx/deserialize.rs guarantees of the values in every transaction it returns.
use stacks_encoding_native_j.Prelude.{◌==◌, ◌≡◌, ok, All, true}
use stacks_encoding_native_j.Wire.Cursor.{Cursor}
use stacks_encoding_native_j.Wire.Error.{unknown_payload_id}
use stacks_encoding_native_j.Wire.Ensures.{
  Ensures, Ensures-read, Ensures-bind, Ensures-pure, Ensures-fail, Ensures-if, Ensures-vec,
  Ensures-eq,
}
use stacks_encoding_native_j.Wire.ByteOrder.{ByteOrder}
use stacks_encoding_native_j.Clarity.Bounds.{IsBoundedOf}
use stacks_encoding_native_j.Clarity.Bounds.Read.{Ensures-deserialize}
use stacks_encoding_native_j.PostCondition.Read.{IsReadCondition, Ensures-post_condition}
use stacks_encoding_native_j.Transaction.Types.{
  StacksTransaction, TransactionPayload, TransactionContractCall, token_transfer, contract_call,
  smart_contract, poison_microblock, coinbase,
}
use stacks_encoding_native_j.Transaction.Payload.{
  read_contract_call, read_token_transfer, read_contract_call_payload, read_smart_contract_payload,
  read_poison_microblock, read_coinbase, read_payload,
}
use stacks_encoding_native_j.Transaction.Deserialize.{read_transaction}

-- The arguments of a call keep their bytes, and are bounded.
abbrev pub IsReadPayload : TransactionPayload → Type 0
IsReadPayload (token_transfer principal amount memo) = Unit
IsReadPayload (contract_call call) = All (IsBoundedOf true 16) call.function_args
IsReadPayload (smart_contract contract) = Unit
IsReadPayload (poison_microblock h1 h2) = Unit
IsReadPayload (coinbase bytes) = Unit

pub record IsRead (tx : StacksTransaction) : Type 0 where
  pub conditions : All IsReadCondition tx.post_conditions
  pub payload : IsReadPayload tx.payload

module _ (b : ByteOrder) where
  Ensures-call :
      Ensures
        (λ (call : TransactionContractCall). All (IsBoundedOf true 16) call.function_args)
        (read_contract_call b)
  unfolding read_contract_call
  Ensures-call =
      let Q : TransactionContractCall → Type 0 =
        λ call. All (IsBoundedOf true 16) call.function_args in
      Ensures-read Q _ _ λ address. Ensures-read Q _ _ λ contract_name.
        Ensures-read Q _ _ λ function_name. Ensures-read Q _ _ λ len.
          Ensures-bind (All (IsBoundedOf true 16)) Q _ _
            (Ensures-vec (IsBoundedOf true 16) _ len (Ensures-deserialize b true))
            λ args l. Ensures-pure Q _ l

  Ensures-transfer : Ensures IsReadPayload (read_token_transfer b)
  unfolding read_token_transfer
  Ensures-transfer = Ensures-read IsReadPayload _ _ λ principal.
      Ensures-read IsReadPayload _ _
        λ amount. Ensures-read IsReadPayload _ _ λ memo. Ensures-pure IsReadPayload _ tt

  Ensures-call_payload : Ensures IsReadPayload (read_contract_call_payload b)
  unfolding read_contract_call_payload
  Ensures-call_payload =
      Ensures-bind (λ call. All (IsBoundedOf true 16) call.function_args) IsReadPayload _ _
        Ensures-call λ call l. Ensures-pure IsReadPayload _ l

  Ensures-contract : Ensures IsReadPayload (read_smart_contract_payload b)
  unfolding read_smart_contract_payload
  Ensures-contract = Ensures-read IsReadPayload _ _ λ contract. Ensures-pure IsReadPayload _ tt

  Ensures-poison : Ensures IsReadPayload (read_poison_microblock b)
  unfolding read_poison_microblock
  Ensures-poison =
      Ensures-read IsReadPayload _ _
        λ h1. Ensures-read IsReadPayload _ _ λ h2. Ensures-pure IsReadPayload _ tt

  Ensures-coinbase : Ensures IsReadPayload (read_coinbase b)
  unfolding read_coinbase
  Ensures-coinbase = Ensures-read IsReadPayload _ _ λ bytes. Ensures-pure IsReadPayload _ tt

  Ensures-payload : Ensures IsReadPayload (read_payload b)
  unfolding read_payload
  Ensures-payload = Ensures-read IsReadPayload _ _ λ t.
      Ensures-if IsReadPayload (t == 0) _ _ Ensures-transfer (
        Ensures-if IsReadPayload (t == 2) _ _ Ensures-call_payload (
          Ensures-if IsReadPayload (t == 1) _ _ Ensures-contract (
            Ensures-if IsReadPayload (t == 3) _ _ Ensures-poison (
              Ensures-if IsReadPayload (t == 4) _ _ Ensures-coinbase
                (Ensures-fail IsReadPayload (unknown_payload_id t))))))

  Ensures-transaction : Ensures IsRead (read_transaction b)
  unfolding read_transaction
  Ensures-transaction = Ensures-read IsRead _ _ λ v. Ensures-read IsRead _ _ λ chain.
      Ensures-read IsRead _ _ λ auth. Ensures-read IsRead _ _ λ mode. Ensures-read IsRead _ _ λ pos.
        Ensures-read IsRead _ _ λ pc. Ensures-read IsRead _ _ λ len.
          Ensures-bind (All IsReadCondition) IsRead _ _
            (Ensures-vec IsReadCondition _ len (Ensures-post_condition b))
            λ conditions l. Ensures-read IsRead _ _ λ bytes.
              Ensures-bind IsReadPayload IsRead _ _ Ensures-payload λ payload k.
                Ensures-read IsRead _ _ λ anchor.
                  Ensures-read IsRead _ _
                    λ pcm. Ensures-pure IsRead _ (record { conditions = l; payload = k })

  -- In every transaction that is read, with any implementation of the byte readers, the values in
  -- non-fungible post-conditions and all arguments of a contract call keep their bytes and have the
  -- sizes and the nesting that reading a value guarantees.
  pub read_transaction-IsRead :
      (tx : StacksTransaction) (c c' : Cursor) → read_transaction b c ≡ ok (tx, c') → IsRead tx
  read_transaction-IsRead tx c c' h =
      Ensures-eq IsRead (read_transaction b) c tx c' Ensures-transaction h
