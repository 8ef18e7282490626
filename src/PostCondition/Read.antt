-- ===== src/PostCondition/Read.antt =====
-- What post_condition/deserialize.rs guarantees of every post-condition it returns.
use stacks_encoding_native_j.Prelude.{
  ◌==◌, false, none, some, Outcome, ok, err, panic, hangs, map_err,
}
use stacks_encoding_native_j.Wire.Cursor.{Cursor}
use stacks_encoding_native_j.Wire.Error.{DeserializeError, unknown_asset_info_id}
use stacks_encoding_native_j.Wire.Ensures.{
  Ensures, Result, Ensures-read, Ensures-bind, Ensures-pure, Ensures-fail, Ensures-if,
}
use stacks_encoding_native_j.Wire.ByteOrder.{ByteOrder}
use stacks_encoding_native_j.Clarity.Types.{ClarityValue, clarity_value}
use stacks_encoding_native_j.Clarity.Bounds.{IsBounded, IsBoundedOf}
use stacks_encoding_native_j.Clarity.Bounds.Read.{Ensures-deserialize}
use stacks_encoding_native_j.PostCondition.Types.{
  TransactionPostCondition, stx, fungible, nonfungible,
}
use stacks_encoding_native_j.PostCondition.Deserialize.{
  read_stx, read_fungible, read_nonfungible, read_asset_value, read_post_condition, value_of,
}

-- The value of an asset keeps its bytes; what is inside it does not.
abbrev pub IsAssetValue : ClarityValue → Type 0
IsAssetValue (clarity_value none v) = ⊥
IsAssetValue (clarity_value (some bytes) v) = IsBounded false 15 v

abbrev pub IsReadCondition : TransactionPostCondition → Type 0
IsReadCondition (stx principal code amount) = Unit
IsReadCondition (fungible principal asset code amount) = Unit
IsReadCondition (nonfungible principal asset value code) = IsAssetValue value

value_of-IsBounded : (v : ClarityValue) → IsBoundedOf false 16 v → IsBounded false 15 (value_of v)
unfolding value_of
value_of-IsBounded (clarity_value bytes v) h = h.1

Result-map_err {ℓ κ} :
    {A : Type ℓ} (P : A → Type κ) (f : DeserializeError → DeserializeError)
    (o : Outcome DeserializeError (A × Cursor))
    → Result P o
    → Result P (map_err f o)
Result-map_err P f (ok x) h = h
Result-map_err P f (err e) h = tt
Result-map_err P f panic h = tt
Result-map_err P f hangs h = tt

module _ (b : ByteOrder) where
  Ensures-IsAssetValue : Ensures IsAssetValue (read_asset_value b)
  unfolding read_asset_value
  Ensures-IsAssetValue = Ensures-read IsAssetValue _ _ λ start.
      Ensures-bind (IsBoundedOf false 16) IsAssetValue _ _
        (record {
          at_every = λ c.
              Result-map_err (IsBoundedOf false 16) _ _ ((Ensures-deserialize b false).at_every c);
        })
        λ v l.
          Ensures-read IsAssetValue _ _
            λ bytes. Ensures-pure IsAssetValue _ (value_of-IsBounded v l)

  Ensures-stx : Ensures IsReadCondition (read_stx b)
  unfolding read_stx
  Ensures-stx = Ensures-read IsReadCondition _ _ λ principal.
      Ensures-read IsReadCondition _ _ λ code_u8.
        Ensures-read IsReadCondition _ _
          λ amount. Ensures-read IsReadCondition _ _ λ code. Ensures-pure IsReadCondition _ tt

  Ensures-fungible : Ensures IsReadCondition (read_fungible b)
  unfolding read_fungible
  Ensures-fungible = Ensures-read IsReadCondition _ _ λ principal.
      Ensures-read IsReadCondition _ _ λ asset. Ensures-read IsReadCondition _ _ λ code_u8.
        Ensures-read IsReadCondition _ _
          λ amount. Ensures-read IsReadCondition _ _ λ code. Ensures-pure IsReadCondition _ tt

  Ensures-nonfungible : Ensures IsReadCondition (read_nonfungible b)
  unfolding read_nonfungible
  Ensures-nonfungible = Ensures-read IsReadCondition _ _ λ principal.
      Ensures-read IsReadCondition _ _ λ asset.
        Ensures-bind IsAssetValue IsReadCondition _ _ Ensures-IsAssetValue λ value l.
          Ensures-read IsReadCondition _ _
            λ code_u8. Ensures-read IsReadCondition _ _ λ code. Ensures-pure IsReadCondition _ l

  pub Ensures-post_condition : Ensures IsReadCondition (read_post_condition b)
  unfolding read_post_condition
  Ensures-post_condition = Ensures-read IsReadCondition _ _ λ t.
      Ensures-if IsReadCondition (t == 0) _ _ Ensures-stx (
        Ensures-if IsReadCondition (t == 1) _ _ Ensures-fungible (
          Ensures-if IsReadCondition (t == 2) _ _ Ensures-nonfungible
            (Ensures-fail IsReadCondition (unknown_asset_info_id t))))
