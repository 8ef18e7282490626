-- ===== src/PostCondition/Codes.antt =====
-- The discriminants of the enums of post_condition/deserialize.rs.
use stacks_encoding_native_j.Prelude.{ℕ, ◌≡◌, refl, some}
use stacks_encoding_native_j.PostCondition.Types.{
  FungibleConditionCode, NonfungibleConditionCode, sent_eq, sent_gt, sent_ge, sent_lt, sent_le,
  sent, not_sent, fungible_condition_code, nonfungible_condition_code,
}

-- `AssetInfoID`
pub data AssetInfoId : Type 0 where
  stx fungible_asset nonfungible_asset : AssetInfoId

unfoldable pub asset_info_id_u8 : AssetInfoId → ℕ
asset_info_id_u8 stx = 0
asset_info_id_u8 fungible_asset = 1
asset_info_id_u8 nonfungible_asset = 2

-- `PostConditionPrincipalID`
pub data PostConditionPrincipalId : Type 0 where
  origin standard contract : PostConditionPrincipalId

unfoldable pub principal_id_u8 : PostConditionPrincipalId → ℕ
principal_id_u8 origin = 0x01
principal_id_u8 standard = 0x02
principal_id_u8 contract = 0x03

unfoldable pub fungible_code_u8 : FungibleConditionCode → ℕ
fungible_code_u8 sent_eq = 0x01
fungible_code_u8 sent_gt = 0x02
fungible_code_u8 sent_ge = 0x03
fungible_code_u8 sent_lt = 0x04
fungible_code_u8 sent_le = 0x05

unfoldable pub nonfungible_code_u8 : NonfungibleConditionCode → ℕ
nonfungible_code_u8 sent = 0x10
nonfungible_code_u8 not_sent = 0x11

pub fungible_condition_code-fungible_code_u8 :
    (code : FungibleConditionCode) → fungible_condition_code (fungible_code_u8 code) ≡ some code
unfolding fungible_condition_code fungible_code_u8
fungible_condition_code-fungible_code_u8 sent_eq = refl
fungible_condition_code-fungible_code_u8 _ = refl

pub nonfungible_condition_code-nonfungible_code_u8 :
    (code : NonfungibleConditionCode)
    → nonfungible_condition_code (nonfungible_code_u8 code) ≡ some code
unfolding nonfungible_condition_code nonfungible_code_u8
nonfungible_condition_code-nonfungible_code_u8 sent = refl
nonfungible_condition_code-nonfungible_code_u8 not_sent = refl
