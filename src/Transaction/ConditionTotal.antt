-- ===== src/Transaction/ConditionTotal.antt =====
-- When the encoders of post-conditions in stacks_tx/neon_encoder.rs build an object.
use stacks_encoding_native_j.Prelude.{
  ℕ, ◌<◌, List, false, none, some, Returns, Returns-ok, Returns-bind,
}
use stacks_encoding_native_j.Radix.{Digits}
use stacks_encoding_native_j.Js.{JsObject, empty_object}
use stacks_encoding_native_j.Address.Crockford.Check.{IsSha256}
use stacks_encoding_native_j.Address.StacksAddress.{StacksAddress}
use stacks_encoding_native_j.Clarity.Types.{clarity_value}
use stacks_encoding_native_j.Clarity.Encoder.{serialized_bytes}
use stacks_encoding_native_j.Clarity.EncoderTotal.{HasAddressesOf, Returns-address, Returns-shallow}
use stacks_encoding_native_j.PostCondition.Types.{
  TransactionPostCondition, PostConditionPrincipal, AssetInfo,
}
use stacks_encoding_native_j.PostCondition.Read.{IsReadCondition}
use stacks_encoding_native_j.Transaction.ConditionEncoder.{
  serialize_stacks_address, serialize_condition_principal, serialize_asset_info,
  serialize_post_condition,
}

-- A version that an address can have, and a hash of bytes.
abbrev pub IsAddress : StacksAddress → Type 0
IsAddress a = (a.version < 32) × Digits 256 a.hash160_bytes

abbrev HasPrincipal : PostConditionPrincipal → Type 0
HasPrincipal PostConditionPrincipal.origin = Unit
HasPrincipal (PostConditionPrincipal.standard a) = IsAddress a
HasPrincipal (PostConditionPrincipal.contract a name) = IsAddress a

-- All addresses of a post-condition, those in the value of an asset included.
abbrev pub HasConditionAddresses : TransactionPostCondition → Type 0
HasConditionAddresses (TransactionPostCondition.stx principal code amount) = HasPrincipal principal
HasConditionAddresses (TransactionPostCondition.fungible principal asset code amount) =
    HasPrincipal principal × IsAddress asset.contract_address
HasConditionAddresses (TransactionPostCondition.nonfungible principal asset value code) =
    HasPrincipal principal × IsAddress asset.contract_address × HasAddressesOf value

module _ (sha256 : List ℕ → List ℕ) (hex_encode : List ℕ → List ℕ) (h : IsSha256 sha256) where
  pub Returns-stacks_address :
      (a : StacksAddress) (obj : JsObject)
      → IsAddress a
      → Returns (serialize_stacks_address sha256 hex_encode a obj)
  unfolding serialize_stacks_address
  Returns-stacks_address a obj k =
      Returns-bind _ _ (Returns-address sha256 hex_encode h a.version a.hash160_bytes k.0 k.1)
        λ text. Returns-ok _

  Returns-condition_principal :
      (p : PostConditionPrincipal) (obj : JsObject)
      → HasPrincipal p
      → Returns (serialize_condition_principal sha256 hex_encode p obj)
  unfolding serialize_condition_principal
  Returns-condition_principal PostConditionPrincipal.origin obj k = Returns-ok _
  Returns-condition_principal (PostConditionPrincipal.standard a) obj k =
      Returns-stacks_address a _ k
  Returns-condition_principal (PostConditionPrincipal.contract a name) obj k =
      Returns-bind _ _ (Returns-stacks_address a _ k) λ addressed. Returns-ok _

  Returns-asset_info :
      (info : AssetInfo) (obj : JsObject)
      → IsAddress info.contract_address
      → Returns (serialize_asset_info sha256 hex_encode info obj)
  unfolding serialize_asset_info
  Returns-asset_info info obj k =
      Returns-bind _ _ (Returns-address sha256 hex_encode h _ _ k.0 k.1) λ text. Returns-ok _

  pub Returns-post_condition :
      (condition : TransactionPostCondition) (obj : JsObject)
      → IsReadCondition condition
      → HasConditionAddresses condition
      → Returns (serialize_post_condition sha256 hex_encode condition obj)
  unfolding serialize_post_condition serialized_bytes
  Returns-post_condition (TransactionPostCondition.stx principal code amount) obj l k =
      Returns-bind _ _ (Returns-condition_principal principal empty_object k) λ p. Returns-ok _
  Returns-post_condition (TransactionPostCondition.fungible principal asset code amount) obj l k =
      Returns-bind _ _ (Returns-condition_principal principal empty_object k.0)
        λ p. Returns-bind _ _ (Returns-asset_info asset empty_object k.1) λ a. Returns-ok _
  Returns-post_condition
        (TransactionPostCondition.nonfungible principal asset (clarity_value none v) code) obj l k =
      absurd l
  Returns-post_condition
        (TransactionPostCondition.nonfungible principal asset (clarity_value (some bytes) v) code)
        obj l k =
      Returns-bind _ _ (Returns-condition_principal principal empty_object k.0) λ p.
        Returns-bind _ _ (Returns-asset_info asset empty_object k.1) λ a.
          Returns-bind _ _
            (Returns-shallow sha256 hex_encode h false 15 (some bytes) v bytes empty_object l k.2)
            λ value. Returns-ok _
