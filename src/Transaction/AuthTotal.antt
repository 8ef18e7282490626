-- ===== src/Transaction/AuthTotal.antt =====
-- When the encoders of authorizations in stacks_tx/neon_encoder.rs build an object.
use stacks_encoding_native_j.Prelude.{
  ℕ, ◌<◌, ◌^◌, ◌≡◌, arith, List, length, some, Returns, Returns-ok, Returns-bind, lt→ltb,
}
use stacks_encoding_native_j.Prelude.{refl, or_panic}
use stacks_encoding_native_j.Address.Crockford.Defs.{C32Error}
use stacks_encoding_native_j.Radix.{Digits}
use stacks_encoding_native_j.Js.{JsObject, empty_object}
use stacks_encoding_native_j.Address.Crockford.Check.{IsSha256}
use stacks_encoding_native_j.Address.StacksAddress.{
  AddressHashMode, serialize_p2pkh, serialize_p2sh, serialize_p2wpkh, serialize_p2wsh,
  hash_mode_from_u8, to_version_mainnet, to_version_testnet,
}
use stacks_encoding_native_j.Transaction.Types.{
  TransactionAuth, TransactionSpendingCondition, SinglesigHashMode, MultisigHashMode,
  TransactionVersion,
}
use stacks_encoding_native_j.Transaction.Codes.{singlesig_u8, multisig_u8}
use stacks_encoding_native_j.Transaction.AuthEncoder.{
  serialize_signer, serialize_singlesig, serialize_multisig, serialize_spending_condition,
  serialize_auth, stacks_address, u32_from_usize, to_version,
}
use stacks_encoding_native_j.Transaction.ConditionTotal.{Returns-stacks_address}

-- A signer of bytes, and a number of fields that a `u32` can hold.
abbrev pub HasSigner : TransactionSpendingCondition → Type 0
HasSigner (TransactionSpendingCondition.singlesig c) = Digits 256 c.signer
HasSigner (TransactionSpendingCondition.multisig c) =
    Digits 256 c.signer × (length c.fields < 2 ^ 32)

abbrev pub HasSigners : TransactionAuth → Type 0
HasSigners (TransactionAuth.standard origin) = HasSigner origin
HasSigners (TransactionAuth.sponsored origin sponsor) = HasSigner origin × HasSigner sponsor

module _ (sha256 : List ℕ → List ℕ) (hex_encode : List ℕ → List ℕ) (h : IsSha256 sha256) where
  -- The version of a signer's address is one of four.
  to_version-small :
      (version : TransactionVersion) (mode : AddressHashMode) → to_version version mode < 32
  unfolding to_version to_version_mainnet to_version_testnet
  to_version-small TransactionVersion.mainnet serialize_p2pkh = omega arith
  to_version-small TransactionVersion.testnet serialize_p2pkh = omega arith
  to_version-small TransactionVersion.mainnet serialize_p2sh = omega arith
  to_version-small TransactionVersion.testnet serialize_p2sh = omega arith
  to_version-small TransactionVersion.mainnet serialize_p2wpkh = omega arith
  to_version-small TransactionVersion.testnet serialize_p2wpkh = omega arith
  to_version-small TransactionVersion.mainnet serialize_p2wsh = omega arith
  to_version-small TransactionVersion.testnet serialize_p2wsh = omega arith

  Returns-mode :
      (version : TransactionVersion) (mode : AddressHashMode) (n : ℕ) (signer : List ℕ)
      → hash_mode_from_u8 n ≡ some mode
      → Digits 256 signer
      → Returns (serialize_signer sha256 hex_encode version n signer)
  unfolding serialize_signer
  Returns-mode version mode n signer e d = rw e (
      Returns-stacks_address sha256 hex_encode h (stacks_address (to_version version mode) signer)
        empty_object (to_version-small version mode, d))

  Returns-singlesig_signer :
      (version : TransactionVersion) (mode : SinglesigHashMode) (signer : List ℕ)
      → Digits 256 signer
      → Returns (serialize_signer sha256 hex_encode version (singlesig_u8 mode) signer)
  unfolding singlesig_u8 hash_mode_from_u8
  Returns-singlesig_signer version SinglesigHashMode.p2pkh signer d =
      Returns-mode version serialize_p2pkh 0 signer refl d
  Returns-singlesig_signer version SinglesigHashMode.p2wpkh signer d =
      Returns-mode version serialize_p2wpkh 2 signer refl d

  Returns-multisig_signer :
      (version : TransactionVersion) (mode : MultisigHashMode) (signer : List ℕ)
      → Digits 256 signer
      → Returns (serialize_signer sha256 hex_encode version (multisig_u8 mode) signer)
  unfolding multisig_u8 hash_mode_from_u8
  Returns-multisig_signer version MultisigHashMode.p2sh signer d =
      Returns-mode version serialize_p2sh 1 signer refl d
  Returns-multisig_signer version MultisigHashMode.p2wsh signer d =
      Returns-mode version serialize_p2wsh 3 signer refl d

  Returns-fields : (n : ℕ) → n < 2 ^ 32 → Returns (or_panic {E = C32Error} (u32_from_usize n))
  unfolding u32_from_usize
  Returns-fields n k = rw (lt→ltb n (2 ^ 32) k) (Returns-ok n)

  Returns-spending_condition :
      (c : TransactionSpendingCondition) (version : TransactionVersion) (obj : JsObject)
      → HasSigner c
      → Returns (serialize_spending_condition sha256 hex_encode c version obj)
  unfolding serialize_spending_condition serialize_singlesig serialize_multisig
  Returns-spending_condition (TransactionSpendingCondition.singlesig c) version obj k =
      Returns-bind _ _ (Returns-singlesig_signer version c.hash_mode c.signer k)
        λ signer. Returns-ok _
  Returns-spending_condition (TransactionSpendingCondition.multisig c) version obj k =
      Returns-bind _ _ (Returns-multisig_signer version c.hash_mode c.signer k.0)
        λ signer. Returns-bind _ _ (Returns-fields (length c.fields) k.1) λ len. Returns-ok _

  pub Returns-auth :
      (auth : TransactionAuth) (version : TransactionVersion) (obj : JsObject)
      → HasSigners auth
      → Returns (serialize_auth sha256 hex_encode auth version obj)
  unfolding serialize_auth
  Returns-auth (TransactionAuth.standard origin) version obj k =
      Returns-bind _ _ (Returns-spending_condition origin version empty_object k) λ o. Returns-ok _
  Returns-auth (TransactionAuth.sponsored origin sponsor) version obj k =
      Returns-bind _ _ (Returns-spending_condition origin version empty_object k.0) λ o.
        Returns-bind _ _ (Returns-spending_condition sponsor version empty_object k.1)
          λ p. Returns-ok _
