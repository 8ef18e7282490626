-- ===== src/PostCondition/Types.antt =====
-- The data of post_condition/deserialize.rs.
use stacks_encoding_native_j.Prelude.{ℕ, Option, none, some, ◌==◌, if◌then◌else◌}
use stacks_encoding_native_j.Address.StacksAddress.{StacksAddress}
use stacks_encoding_native_j.Clarity.Types.{ClarityName, ClarityValue}

pub data FungibleConditionCode : Type 0 where
  sent_eq sent_gt sent_ge sent_lt sent_le : FungibleConditionCode

-- `FungibleConditionCode::try_from`
unfoldable pub fungible_condition_code : ℕ → Option FungibleConditionCode
fungible_condition_code v =
    if v == 0x01
    then some sent_eq
    else if v == 0x02
    then some sent_gt
    else if v == 0x03
    then some sent_ge
    else if v == 0x04
    then some sent_lt
    else if v == 0x05
    then some sent_le
    else none

pub data NonfungibleConditionCode : Type 0 where
  sent not_sent : NonfungibleConditionCode

-- `NonfungibleConditionCode::try_from`
unfoldable pub nonfungible_condition_code : ℕ → Option NonfungibleConditionCode
nonfungible_condition_code v =
    if v == 0x10 then some sent else if v == 0x11 then some not_sent else none

pub record AssetInfo : Type 0 where
  pub contract_address : StacksAddress
  pub contract_name : ClarityName
  pub asset_name : ClarityName

pub data PostConditionPrincipal : Type 0 where
  origin : PostConditionPrincipal
  standard : StacksAddress → PostConditionPrincipal
  contract : StacksAddress → ClarityName → PostConditionPrincipal

pub data TransactionPostCondition : Type 0 where
  stx : PostConditionPrincipal → FungibleConditionCode → ℕ → TransactionPostCondition
  fungible :
      PostConditionPrincipal → AssetInfo → FungibleConditionCode → ℕ → TransactionPostCondition
  nonfungible :
      PostConditionPrincipal
      → AssetInfo
      → ClarityValue
      → NonfungibleConditionCode
      → TransactionPostCondition
