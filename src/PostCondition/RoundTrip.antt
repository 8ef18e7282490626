-- ===== src/PostCondition/RoundTrip.antt =====
-- The deserializers of post_condition/deserialize.rs behind the wire format of Serialize.
use stacks_encoding_native_j.Wire.ByteOrder.{big_endian-IsByteOrder}
use stacks_encoding_native_j.Prelude.{
  ℕ, ◌^◌, ◌<◌, ◌≡◌, refl, arith, List, [], ◌∷◌, ◌++◌, false, none, ok,
}
use stacks_encoding_native_j.Wire.Reader.{pure, ◌>>=◌, ok_or, read_be, slice_from}
use stacks_encoding_native_j.Wire.Cursor.{position}
use stacks_encoding_native_j.Wire.Error.{bad_fungible_condition_code}
use stacks_encoding_native_j.Wire.ByteOrder.{ByteOrder, IsByteOrder, big_endian, for_byte_order}
use stacks_encoding_native_j.Wire.Laws.{
  Reads, Reads-map, Reads-bind, Reads-exact, Reads-pure, Reads-be, Reads-tag, Reads-return,
  slice_from-at, at, to_be,
}
use stacks_encoding_native_j.Address.StacksAddress.{StacksAddress}
use stacks_encoding_native_j.Clarity.Types.{ClarityValue, clarity_value}
use stacks_encoding_native_j.Clarity.Serialize.{serialize, serialize_value, serialize_name}
use stacks_encoding_native_j.Clarity.Serialize
use stacks_encoding_native_j.Clarity.NamesRoundTrip.{Reads-name}
use stacks_encoding_native_j.Clarity.RoundTrip.{deserialize-serialize}
use stacks_encoding_native_j.PostCondition.Types.{
  AssetInfo, PostConditionPrincipal, TransactionPostCondition, FungibleConditionCode, origin,
  standard, contract, stx, fungible, nonfungible, fungible_condition_code,
}
use stacks_encoding_native_j.PostCondition.Codes.{
  fungible_code_u8, nonfungible_code_u8, fungible_condition_code-fungible_code_u8,
  nonfungible_condition_code-nonfungible_code_u8,
}
use stacks_encoding_native_j.PostCondition.Deserialize.{
  read_stacks_address, read_asset_info, read_principal, read_standard, read_contract, read_stx,
  read_fungible, read_nonfungible, read_asset_value, read_post_condition, value_of,
}
use stacks_encoding_native_j.PostCondition.Serialize.{
  address_bytes, asset_bytes, principal_bytes, condition_bytes, IsAddress, IsAsset,
  IsConditionPrincipal, IsAssetWire, wire, IsConditionWire,
}

pub Reads-address :
    (a : StacksAddress) → IsAddress a → Reads (read_stacks_address big_endian) (address_bytes a) a
unfolding read_stacks_address address_bytes
Reads-address a h =
    Reads-bind _ _ _ _ _ _ (Reads-be 1 a.version (omega arith))
      (Reads-map _ _ _ _ (Reads-exact 20 a.hash160_bytes h.hash_length))

pub Reads-asset : (i : AssetInfo) → IsAsset i → Reads (read_asset_info big_endian) (asset_bytes i) i
unfolding read_asset_info asset_bytes
Reads-asset i h = Reads-bind _ _ _ _ _ _ (Reads-address i.contract_address h.address) (
    Reads-bind _ _ _ _ _ _ (Reads-name i.contract_name h.contract)
      (Reads-map _ _ _ _ (Reads-name i.asset_name h.asset)))

Reads-principal :
    (p : PostConditionPrincipal)
    → IsConditionPrincipal p
    → Reads (read_principal big_endian) (principal_bytes p) p
unfolding read_principal principal_bytes read_standard read_contract
Reads-principal origin h = Reads-tag _ 1 [] origin (Reads-pure origin)
Reads-principal (standard a) h =
    Reads-tag _ 2 (address_bytes a) (standard a) (Reads-map _ standard _ a (Reads-address a h))
Reads-principal (contract a name) h =
    Reads-tag _ 3 (address_bytes a ++ serialize_name name) (contract a name)
      (Reads-bind _ _ _ _ _ _ (Reads-address a h.0) (Reads-map _ _ _ _ (Reads-name name h.1)))

-- A code, an amount, and a condition that is made of them.
Reads-code :
    (make : FungibleConditionCode → ℕ → TransactionPostCondition) (code : FungibleConditionCode)
    (amount : ℕ)
    → amount < 256 ^ 8
    → Reads
        (read_be 1 >>= λ u. read_be 8 >>= λ n.
          ok_or (fungible_condition_code u) (bad_fungible_condition_code u) >>= λ k.
          pure (make k n))
        (fungible_code_u8 code ∷ to_be 8 amount)
        (make code amount)
unfolding ◌>>=◌
Reads-code make code amount h =
    Reads-tag _ (fungible_code_u8 code) (to_be 8 amount) (make code amount) (
      rw (fungible_condition_code-fungible_code_u8 code)
        λ pre post. rw (Reads-be 8 amount h pre post) refl)

Reads-asset_value :
    (v : ClarityValue) → IsAssetWire v → Reads (read_asset_value big_endian) (serialize v) v
unfolding read_asset_value value_of ◌>>=◌ serialize slice_from position
Reads-asset_value _ (wire {v} h) pre post =
    rw
      (
        deserialize-serialize big_endian false (clarity_value none v) pre post
            big_endian-IsByteOrder (Serialize.wire h),
        slice_from-at pre (serialize_value v) post,
      )
      refl

pub Reads-post_condition :
    (c : TransactionPostCondition)
    → IsConditionWire c
    → Reads (read_post_condition big_endian) (condition_bytes c) c
unfolding read_post_condition condition_bytes read_stx read_fungible read_nonfungible
Reads-post_condition (stx p code amount) h =
    Reads-tag _ 0 _ _
      (Reads-bind _ _ _ _ _ _ (Reads-principal p h.0) (Reads-code (stx p) code amount h.1))
Reads-post_condition (fungible p asset code amount) h = Reads-tag _ 1 _ _ (
    Reads-bind _ _ _ _ _ _ (Reads-principal p h.0) (
      Reads-bind _ _ _ _ _ _ (Reads-asset asset h.1)
        (Reads-code (fungible p asset) code amount h.2)))
Reads-post_condition (nonfungible p asset v code) h = Reads-tag _ 2 _ _ (
    Reads-bind _ _ _ _ _ _ (Reads-principal p h.0) (
      Reads-bind _ _ _ _ _ _ (Reads-asset asset h.1) (
        Reads-bind _ _ _ _ _ _ (Reads-asset_value v h.2) (
          Reads-tag _ (nonfungible_code_u8 code) [] _ (
            rw (nonfungible_condition_code-nonfungible_code_u8 code)
              (Reads-return (λ k. pure (nonfungible p asset v k)) code [] _ (Reads-pure _)))))))

-- With byte readers as documented: a post-condition that has an encoding in the wire format is read
-- back from its encoding at any place of the input, and exactly the encoding is consumed.
pub read_post_condition-condition_bytes :
    (b : ByteOrder) (c : TransactionPostCondition) (pre post : List ℕ)
    → IsByteOrder b
    → IsConditionWire c
    → read_post_condition b (at pre (condition_bytes c ++ post))
      ≡ ok (c, at (pre ++ condition_bytes c) post)
read_post_condition-condition_bytes b c pre post hb h =
    for_byte_order (λ o. Reads (read_post_condition o) (condition_bytes c) c)
      (Reads-post_condition c h) b hb pre post
