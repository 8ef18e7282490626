-- ===== src/PostCondition/Encoder.antt =====
-- The encoders of post_condition/neon_encoder.rs.
use stacks_encoding_native_j.Prelude.{ℕ, List, false, ok, ◌>>=◌, or_panic, codes}
use stacks_encoding_native_j.Text.Decimal.{decimal}
use stacks_encoding_native_j.Js.{JsObject, Encoded, string, number, object, empty_object, ◌&◌, ◌is◌}
use stacks_encoding_native_j.Address.Crockford.Check.{c32_address}
use stacks_encoding_native_j.Address.StacksAddress.{StacksAddress}
use stacks_encoding_native_j.Clarity.Repr.{encode_hex}
use stacks_encoding_native_j.Clarity.Encoder.{decode_clarity_val, serialized_bytes}
use stacks_encoding_native_j.PostCondition.Types.{
  TransactionPostCondition, PostConditionPrincipal, AssetInfo, FungibleConditionCode,
  NonfungibleConditionCode, sent_eq, sent_gt, sent_ge, sent_lt, sent_le, sent, not_sent,
}
use stacks_encoding_native_j.PostCondition.Codes
use stacks_encoding_native_j.PostCondition.Codes.{
  asset_info_id_u8, principal_id_u8, fungible_code_u8, nonfungible_code_u8,
}

unfoldable pub fungible_name : FungibleConditionCode → List ℕ
fungible_name sent_eq = codes "sent_equal_to"
fungible_name sent_gt = codes "sent_greater_than"
fungible_name sent_ge = codes "sent_greater_than_or_equal_to"
fungible_name sent_lt = codes "sent_less_than"
fungible_name sent_le = codes "sent_less_than_or_equal_to"

unfoldable pub nonfungible_name : NonfungibleConditionCode → List ℕ
nonfungible_name sent = codes "sent"
nonfungible_name not_sent = codes "not_sent"

unfoldable pub encode_fungible_code : FungibleConditionCode → JsObject → JsObject
encode_fungible_code code obj =
    obj
    & "condition_code" is number (fungible_code_u8 code)
    & "condition_name" is string (fungible_name code)

unfoldable pub encode_nonfungible_code : NonfungibleConditionCode → JsObject → JsObject
encode_nonfungible_code code obj =
    obj
    & "condition_code" is number (nonfungible_code_u8 code)
    & "condition_name" is string (nonfungible_name code)

module _ (sha256 : List ℕ → List ℕ) (hex_encode : List ℕ → List ℕ) where
  unfoldable pub encode_stacks_address : StacksAddress → JsObject → Encoded
  encode_stacks_address a obj = do
    let versioned = obj & "address_version" is number a.version
    let hash_hex = encode_hex sha256 hex_encode a.hash160_bytes
    let hashed = versioned & "address_hash_bytes" is string hash_hex
    address_str ← c32_address sha256 a.version a.hash160_bytes
    ok (hashed & "address" is string address_str)

  unfoldable pub encode_condition_principal : PostConditionPrincipal → JsObject → Encoded
  encode_condition_principal PostConditionPrincipal.origin obj =
      ok (obj & "type_id" is number (principal_id_u8 Codes.origin))
  encode_condition_principal (PostConditionPrincipal.standard address) obj =
      encode_stacks_address address (obj & "type_id" is number (principal_id_u8 Codes.standard))
  encode_condition_principal (PostConditionPrincipal.contract address contract_name) obj = do
    let typed = obj & "type_id" is number (principal_id_u8 Codes.contract)
    addressed ← encode_stacks_address address typed
    ok (addressed & "contract_name" is string contract_name)

  unfoldable pub encode_asset_info : AssetInfo → JsObject → Encoded
  encode_asset_info info obj = do
    let issuer = info.contract_address
    contract_address_str ← c32_address sha256 issuer.version issuer.hash160_bytes
    ok (
        obj
        & "contract_address" is string contract_address_str
        & "contract_name" is string info.contract_name
        & "asset_name" is string info.asset_name)

  unfoldable pub encode_post_condition : TransactionPostCondition → JsObject → Encoded
  encode_post_condition (TransactionPostCondition.stx principal code amount) obj = do
    principal_obj ← encode_condition_principal principal empty_object
    let started = obj & "asset_info_id" is number (asset_info_id_u8 Codes.stx)
    let named = started & "principal" is object principal_obj
    ok (encode_fungible_code code named & "amount" is string (decimal amount))
  encode_post_condition (TransactionPostCondition.fungible principal asset code amount) obj = do
    principal_obj ← encode_condition_principal principal empty_object
    let started = obj & "asset_info_id" is number (asset_info_id_u8 Codes.fungible_asset)
    let named = started & "principal" is object principal_obj
    asset_info_obj ← encode_asset_info asset empty_object
    let held = named & "asset" is object asset_info_obj
    ok (encode_fungible_code code held & "amount" is string (decimal amount))
  encode_post_condition (TransactionPostCondition.nonfungible principal asset asset_value code)
        obj =
      do
        principal_obj ← encode_condition_principal principal empty_object
        let started = obj & "asset_info_id" is number (asset_info_id_u8 Codes.nonfungible_asset)
        let named = started & "principal" is object principal_obj
        asset_info_obj ← encode_asset_info asset empty_object
        let held = named & "asset" is object asset_info_obj
        bytes ← or_panic (serialized_bytes asset_value)
        asset_value_obj ← decode_clarity_val sha256 hex_encode asset_value false bytes empty_object
        ok (encode_nonfungible_code code (held & "asset_value" is object asset_value_obj))
