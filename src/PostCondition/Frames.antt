-- ===== src/PostCondition/Frames.antt =====
-- Panics and consumption of the deserializers of post_condition/deserialize.rs.
use stacks_encoding_native_j.Prelude.{ℕ, ◌==◌, false}
use stacks_encoding_native_j.Wire.ByteOrder.{big_endian}
use stacks_encoding_native_j.Wire.Error.{
  bad_asset_value, unknown_principal_id, unknown_asset_info_id,
}
use stacks_encoding_native_j.Prelude.{arith}
use stacks_encoding_native_j.Wire.Consumes.{Consumes, Consumes-bind, Consumes-be}
use stacks_encoding_native_j.Wire.Frames.{
  Frames, Frames-pure, Frames-fail, Frames-ok_or, Frames-if, Frames-bind, Frames-position,
  Frames-exact, Frames-slice, Frames-be, Frames-map_err,
}
use stacks_encoding_native_j.Clarity.Deserialize.{deserialize}
use stacks_encoding_native_j.Clarity.Frames.{Frames-name, Frames-deserialize}
use stacks_encoding_native_j.PostCondition.Deserialize.{
  read_stacks_address, read_asset_info, read_standard, read_contract, read_principal, read_stx,
  read_fungible, read_asset_value, read_nonfungible, read_post_condition,
}
use stacks_encoding_native_j.PostCondition.Types.{origin}

module _ (n : ℕ) where
  pub Frames-address : Frames n (read_stacks_address big_endian)
  unfolding read_stacks_address
  Frames-address =
      Frames-bind n _ _ (Frames-be n 1)
        λ v. Frames-bind n _ _ (Frames-exact n 20) λ bytes. Frames-pure n _

  Frames-asset_info : Frames n (read_asset_info big_endian)
  unfolding read_asset_info
  Frames-asset_info = Frames-bind n _ _ Frames-address λ a.
      Frames-bind n _ _ (Frames-name n)
        λ name. Frames-bind n _ _ (Frames-name n) λ asset. Frames-pure n _

  Frames-standard : Frames n (read_standard big_endian)
  unfolding read_standard
  Frames-standard = Frames-bind n _ _ Frames-address λ a. Frames-pure n _

  Frames-contract : Frames n (read_contract big_endian)
  unfolding read_contract
  Frames-contract =
      Frames-bind n _ _ Frames-address
        λ a. Frames-bind n _ _ (Frames-name n) λ name. Frames-pure n _

  Frames-post_principal : Frames n (read_principal big_endian)
  unfolding read_principal
  Frames-post_principal = Frames-bind n _ _ (Frames-be n 1) λ t.
      Frames-if n (t == 0x01) _ _ (Frames-pure n origin) (
        Frames-if n (t == 0x02) _ _ Frames-standard
          (Frames-if n (t == 0x03) _ _ Frames-contract (Frames-fail n (unknown_principal_id t))))

  Frames-stx : Frames n (read_stx big_endian)
  unfolding read_stx
  Frames-stx = Frames-bind n _ _ Frames-post_principal λ p. Frames-bind n _ _ (Frames-be n 1) λ u.
      Frames-bind n _ _ (Frames-be n 8)
        λ amount. Frames-bind n _ _ (Frames-ok_or n _ _) λ code. Frames-pure n _

  Frames-fungible : Frames n (read_fungible big_endian)
  unfolding read_fungible
  Frames-fungible = Frames-bind n _ _ Frames-post_principal λ p.
      Frames-bind n _ _ Frames-asset_info λ asset. Frames-bind n _ _ (Frames-be n 1) λ u.
        Frames-bind n _ _ (Frames-be n 8)
          λ amount. Frames-bind n _ _ (Frames-ok_or n _ _) λ code. Frames-pure n _

  Frames-asset_value : Frames n (read_asset_value big_endian)
  unfolding read_asset_value
  Frames-asset_value = Frames-position n _ λ m.
      Frames-bind m _ _
        (Frames-map_err m bad_asset_value (deserialize big_endian false)
          (Frames-deserialize m false))
        λ v. Frames-bind m _ _ (Frames-slice m) λ bytes. Frames-pure m _

  Frames-nonfungible : Frames n (read_nonfungible big_endian)
  unfolding read_nonfungible
  Frames-nonfungible = Frames-bind n _ _ Frames-post_principal λ p.
      Frames-bind n _ _ Frames-asset_info λ asset. Frames-bind n _ _ Frames-asset_value λ v.
        Frames-bind n _ _ (Frames-be n 1)
          λ u. Frames-bind n _ _ (Frames-ok_or n _ _) λ code. Frames-pure n _

  pub Frames-post_condition : Frames n (read_post_condition big_endian)
  unfolding read_post_condition
  Frames-post_condition = Frames-bind n _ _ (Frames-be n 1) λ t.
      Frames-if n (t == 0) _ _ Frames-stx (
        Frames-if n (t == 1) _ _ Frames-fungible
          (Frames-if n (t == 2) _ _ Frames-nonfungible (Frames-fail n (unknown_asset_info_id t))))

  -- A post-condition takes at least its first byte.
  pub Consumes-post_condition : Consumes n (read_post_condition big_endian)
  unfolding read_post_condition
  Consumes-post_condition = Consumes-bind n _ _ (Consumes-be n 1 (omega arith)) λ t.
      Frames-if n (t == 0) _ _ Frames-stx (
        Frames-if n (t == 1) _ _ Frames-fungible
          (Frames-if n (t == 2) _ _ Frames-nonfungible (Frames-fail n (unknown_asset_info_id t))))
