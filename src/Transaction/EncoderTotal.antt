-- ===== src/Transaction/EncoderTotal.antt =====
-- When the encoder of transactions in stacks_tx/neon_encoder.rs builds an object.
use stacks_encoding_native_j.Prelude.{
  ℕ, List, [], ◌∷◌, All, true, none, some, Returns, Returns-ok, Returns-bind,
}
use stacks_encoding_native_j.Js.{JsObject, empty_object}
use stacks_encoding_native_j.Address.Crockford.Check.{IsSha256}
use stacks_encoding_native_j.Clarity.Types.{ClarityValue, clarity_value}
use stacks_encoding_native_j.Clarity.Bounds.{IsBoundedOf}
use stacks_encoding_native_j.Clarity.ReprTotal.{HasAddress}
use stacks_encoding_native_j.Clarity.Encoder.{serialized_bytes}
use stacks_encoding_native_j.Clarity.EncoderTotal.{HasAddressesOf, Returns-address, Returns-shallow}
use stacks_encoding_native_j.PostCondition.Types.{TransactionPostCondition}
use stacks_encoding_native_j.PostCondition.Read.{IsReadCondition}
use stacks_encoding_native_j.Transaction.Types.{
  StacksTransaction, TransactionPayload, PrincipalData,
}
use stacks_encoding_native_j.Transaction.Read.{IsRead, IsReadPayload}
use stacks_encoding_native_j.Transaction.PayloadEncoder.{
  serialize_standard_principal, serialize_principal_data, serialize_args, serialize_contract_call,
  serialize_payload,
}
use stacks_encoding_native_j.Transaction.Encoder.{serialize_post_conditions, serialize_transaction}
use stacks_encoding_native_j.Transaction.ConditionTotal.{
  IsAddress, HasConditionAddresses, Returns-stacks_address, Returns-post_condition,
}
use stacks_encoding_native_j.Transaction.AuthTotal.{HasSigners, Returns-auth}

abbrev HasRecipient : PrincipalData → Type 0
HasRecipient (PrincipalData.standard p) = HasAddress p
HasRecipient (PrincipalData.contract p) = HasAddress p.issuer

abbrev pub HasPayloadAddresses : TransactionPayload → Type 0
HasPayloadAddresses (TransactionPayload.token_transfer principal amount memo) =
    HasRecipient principal
HasPayloadAddresses (TransactionPayload.contract_call call) =
    IsAddress call.address × All HasAddressesOf call.function_args
HasPayloadAddresses (TransactionPayload.smart_contract contract) = Unit
HasPayloadAddresses (TransactionPayload.poison_microblock h1 h2) = Unit
HasPayloadAddresses (TransactionPayload.coinbase bytes) = Unit

-- All versions in a transaction are below 32, and all hashes are bytes.
pub record HasTransactionAddresses (tx : StacksTransaction) : Type 0 where
  pub signers : HasSigners tx.auth
  pub conditions : All HasConditionAddresses tx.post_conditions
  pub payload : HasPayloadAddresses tx.payload

module _ (sha256 : List ℕ → List ℕ) (hex_encode : List ℕ → List ℕ) (h : IsSha256 sha256) where
  Returns-recipient :
      (p : PrincipalData) (obj : JsObject)
      → HasRecipient p
      → Returns (serialize_principal_data sha256 hex_encode p obj)
  unfolding serialize_principal_data serialize_standard_principal
  Returns-recipient (PrincipalData.standard p) obj k =
      Returns-bind _ _ (Returns-address sha256 hex_encode h _ _ k.0 k.1) λ text. Returns-ok _
  Returns-recipient (PrincipalData.contract p) obj k =
      Returns-bind _ _ (Returns-address sha256 hex_encode h _ _ k.0 k.1) λ text. Returns-ok _

  Returns-args :
      (args : List ClarityValue)
      → All (IsBoundedOf true 16) args
      → All HasAddressesOf args
      → Returns (serialize_args sha256 hex_encode args)
  unfolding serialize_args serialized_bytes
  Returns-args [] l k = Returns-ok _
  Returns-args (clarity_value none v ∷ args) l k = absurd l.0.0
  Returns-args (clarity_value (some bytes) v ∷ args) l k =
      Returns-bind _ _
        (Returns-shallow sha256 hex_encode h true 15 (some bytes) v bytes empty_object l.0.1 k.0)
        λ obj. Returns-bind _ _ (Returns-args args l.1 k.1) λ rest. Returns-ok _

  Returns-payload :
      (payload : TransactionPayload) (obj : JsObject)
      → IsReadPayload payload
      → HasPayloadAddresses payload
      → Returns (serialize_payload sha256 hex_encode payload obj)
  unfolding serialize_payload serialize_contract_call
  Returns-payload (TransactionPayload.token_transfer principal amount memo) obj l k =
      Returns-bind _ _ (Returns-recipient principal empty_object k) λ p. Returns-ok _
  Returns-payload (TransactionPayload.contract_call call) obj l k =
      Returns-bind _ _ (Returns-stacks_address sha256 hex_encode h call.address _ k.0)
        λ addressed. Returns-bind _ _ (Returns-args call.function_args l k.1) λ args. Returns-ok _
  Returns-payload (TransactionPayload.smart_contract contract) obj l k = Returns-ok _
  Returns-payload (TransactionPayload.poison_microblock h1 h2) obj l k = Returns-ok _
  Returns-payload (TransactionPayload.coinbase bytes) obj l k = Returns-ok _

  Returns-post_conditions :
      (conditions : List TransactionPostCondition)
      → All IsReadCondition conditions
      → All HasConditionAddresses conditions
      → Returns (serialize_post_conditions sha256 hex_encode conditions)
  unfolding serialize_post_conditions
  Returns-post_conditions [] l k = Returns-ok _
  Returns-post_conditions (x ∷ conditions) l k =
      Returns-bind _ _ (Returns-post_condition sha256 hex_encode h x empty_object l.0 k.0)
        λ obj. Returns-bind _ _ (Returns-post_conditions conditions l.1 k.1) λ rest. Returns-ok _

  pub Returns-transaction :
      (tx : StacksTransaction) (obj : JsObject)
      → IsRead tx
      → HasTransactionAddresses tx
      → Returns (serialize_transaction sha256 hex_encode tx obj)
  unfolding serialize_transaction
  Returns-transaction tx obj l k =
      Returns-bind _ _ (Returns-auth sha256 hex_encode h tx.auth tx.version empty_object k.signers)
        λ auth.
          Returns-bind _ _ (Returns-post_conditions tx.post_conditions l.conditions k.conditions)
            λ items.
              Returns-bind _ _ (Returns-payload tx.payload empty_object l.payload k.payload)
                λ payload. Returns-ok _
