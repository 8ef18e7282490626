-- ===== src/PostCondition/Serialize.antt =====
-- A specification of the wire format of post-conditions, which post_condition/deserialize.rs reads.
use stacks_encoding_native_j.Prelude.{ℕ, ◌<◌, ◌^◌, ◌≡◌, List, [], ◌∷◌, ◌++◌, length, false, some}
use stacks_encoding_native_j.Wire.Laws.{to_be}
use stacks_encoding_native_j.Address.StacksAddress.{StacksAddress}
use stacks_encoding_native_j.Clarity.Types.{Value, ClarityValue, clarity_value}
use stacks_encoding_native_j.Clarity.Serialize.{
  serialize, serialize_value, serialize_name, IsName, IsWireBody,
}
use stacks_encoding_native_j.PostCondition.Types.{
  AssetInfo, PostConditionPrincipal, TransactionPostCondition, origin, standard, contract, stx,
  fungible, nonfungible,
}
use stacks_encoding_native_j.PostCondition.Codes.{fungible_code_u8, nonfungible_code_u8}

unfoldable pub address_bytes : StacksAddress → List ℕ
address_bytes a = to_be 1 a.version ++ a.hash160_bytes

unfoldable pub asset_bytes : AssetInfo → List ℕ
asset_bytes i =
    address_bytes i.contract_address
    ++ (serialize_name i.contract_name ++ serialize_name i.asset_name)

unfoldable pub principal_bytes : PostConditionPrincipal → List ℕ
principal_bytes origin = 0x01 ∷ []
principal_bytes (standard a) = 0x02 ∷ address_bytes a
principal_bytes (contract a name) = 0x03 ∷ (address_bytes a ++ serialize_name name)

unfoldable pub condition_bytes : TransactionPostCondition → List ℕ
condition_bytes (stx p code amount) =
    0 ∷ (principal_bytes p ++ (fungible_code_u8 code ∷ to_be 8 amount))
condition_bytes (fungible p asset code amount) =
    1 ∷ (principal_bytes p ++ (asset_bytes asset ++ (fungible_code_u8 code ∷ to_be 8 amount)))
condition_bytes (nonfungible p asset v code) =
    2
    ∷ (principal_bytes p ++ (asset_bytes asset ++ (serialize v ++ (nonfungible_code_u8 code ∷ []))))

pub record IsAddress (a : StacksAddress) : Type 0 where
  pub version_u8 : a.version < 256
  pub hash_length : length a.hash160_bytes ≡ 20

pub record IsAsset (i : AssetInfo) : Type 0 where
  pub address : IsAddress i.contract_address
  pub contract : IsName i.contract_name
  pub asset : IsName i.asset_name

abbrev pub IsConditionPrincipal : PostConditionPrincipal → Type 0
IsConditionPrincipal origin = Unit
IsConditionPrincipal (standard a) = IsAddress a
IsConditionPrincipal (contract a name) = IsAddress a × IsName name

-- A value that is kept with its encoding, without those of the values inside.
pub data IsAssetWire : ClarityValue → Type 0 where
  wire :
      {v : Value} → IsWireBody false 15 v → IsAssetWire (clarity_value (some (serialize_value v)) v)

-- The post-conditions that have an encoding.
abbrev pub IsConditionWire : TransactionPostCondition → Type 0
IsConditionWire (stx p code amount) = IsConditionPrincipal p × (amount < 256 ^ 8)
IsConditionWire (fungible p asset code amount) =
    IsConditionPrincipal p × IsAsset asset × (amount < 256 ^ 8)
IsConditionWire (nonfungible p asset v code) =
    IsConditionPrincipal p × IsAsset asset × IsAssetWire v
