-- ===== src/Transaction/ConditionAgree.antt =====
-- The encoders of post-conditions in stacks_tx/neon_encoder.rs and in post_condition/neon_encoder.rs.
use stacks_encoding_native_j.Prelude.{List, ℕ, ◌≡◌, refl}
use stacks_encoding_native_j.Js.{JsObject}
use stacks_encoding_native_j.Address.StacksAddress.{StacksAddress}
use stacks_encoding_native_j.PostCondition.Types.{
  TransactionPostCondition, PostConditionPrincipal, AssetInfo, FungibleConditionCode,
  NonfungibleConditionCode, sent_eq, sent_gt, sent_ge, sent_lt, sent_le, sent, not_sent,
}
use stacks_encoding_native_j.PostCondition.Encoder.{
  encode_post_condition, encode_condition_principal, encode_stacks_address, encode_asset_info,
  encode_fungible_code, encode_nonfungible_code, fungible_name, nonfungible_name,
}
use stacks_encoding_native_j.Transaction.ConditionEncoder.{
  serialize_post_condition, serialize_condition_principal, serialize_stacks_address,
  serialize_asset_info, serialize_fungible_code, serialize_nonfungible_code,
  fungible_condition_name, nonfungible_condition_name,
}

fungible_code-agree :
    (code : FungibleConditionCode) (obj : JsObject)
    → serialize_fungible_code code obj ≡ encode_fungible_code code obj
unfolding serialize_fungible_code encode_fungible_code fungible_name fungible_condition_name
fungible_code-agree sent_eq obj = refl
fungible_code-agree sent_gt obj = refl
fungible_code-agree sent_ge obj = refl
fungible_code-agree sent_lt obj = refl
fungible_code-agree sent_le obj = refl

nonfungible_code-agree :
    (code : NonfungibleConditionCode) (obj : JsObject)
    → serialize_nonfungible_code code obj ≡ encode_nonfungible_code code obj
unfolding serialize_nonfungible_code encode_nonfungible_code nonfungible_name
    nonfungible_condition_name
nonfungible_code-agree sent obj = refl
nonfungible_code-agree not_sent obj = refl

module _ (sha256 : List ℕ → List ℕ) (hex_encode : List ℕ → List ℕ) where
  address-agree :
      (a : StacksAddress) (obj : JsObject)
      → serialize_stacks_address sha256 hex_encode a obj
        ≡ encode_stacks_address sha256 hex_encode a obj
  unfolding serialize_stacks_address encode_stacks_address
  address-agree a obj = refl

  principal-agree :
      (p : PostConditionPrincipal) (obj : JsObject)
      → serialize_condition_principal sha256 hex_encode p obj
        ≡ encode_condition_principal sha256 hex_encode p obj
  unfolding serialize_condition_principal encode_condition_principal
  principal-agree PostConditionPrincipal.origin obj = refl
  principal-agree (PostConditionPrincipal.standard a) obj = address-agree a _
  principal-agree (PostConditionPrincipal.contract a name) obj = rw (address-agree a _) refl

  asset_info-agree :
      (info : AssetInfo) (obj : JsObject)
      → serialize_asset_info sha256 hex_encode info obj
        ≡ encode_asset_info sha256 hex_encode info obj
  unfolding serialize_asset_info encode_asset_info
  asset_info-agree info obj = refl

  -- The two encoders of post-conditions, one for transactions and one for post-conditions alone,
  -- come to the same result on every post-condition and object, failures included.
  pub serialize_post_condition-encode_post_condition :
      (condition : TransactionPostCondition) (obj : JsObject)
      → serialize_post_condition sha256 hex_encode condition obj
        ≡ encode_post_condition sha256 hex_encode condition obj
  unfolding serialize_post_condition encode_post_condition
  serialize_post_condition-encode_post_condition
        (TransactionPostCondition.stx principal code amount) obj =
      simp (principal-agree, fungible_code-agree)
  serialize_post_condition-encode_post_condition
        (TransactionPostCondition.fungible principal asset code amount) obj =
      simp (principal-agree, asset_info-agree, fungible_code-agree)
  serialize_post_condition-encode_post_condition
        (TransactionPostCondition.nonfungible principal asset value code) obj =
      simp (principal-agree, asset_info-agree, nonfungible_code-agree)
