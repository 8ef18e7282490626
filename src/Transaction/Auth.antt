-- ===== src/Transaction/Auth.antt =====
-- The authorizations of stacks_tx/deserialize.rs: `TransactionAuth`, its spending conditions and
-- the fields of a multisig condition.
use stacks_encoding_native_j.Prelude.{ℕ, ◌+◌, ◌-◌, ◌^◌, Bool, true, false, not, ◌&&◌, ltb, ◌==◌}
use stacks_encoding_native_j.Prelude.{if◌then◌else◌, List, [], ◌∷◌, Option, none, some}
use stacks_encoding_native_j.Wire.Error.{
  unrecognized_auth_flags, invalid_hash_mode, unknown_singlesig_hash_mode,
  unknown_multisig_hash_mode, unknown_key_encoding, incompatible_hash_mode, too_many_signatures,
  wrong_signature_count, expected_compressed_keys, unknown_auth_field_id,
}
use stacks_encoding_native_j.Wire.Reader.{
  Reader, pure, ◌>>=◌, ◌>>◌, fail, ok_or, ensure, get_position, set_position, read_exact, read_vec,
}
use stacks_encoding_native_j.Wire.ByteOrder.{ByteOrder}
use stacks_encoding_native_j.Transaction.Types.{
  TransactionAuth, TransactionSpendingCondition, SinglesigSpendingCondition,
  MultisigSpendingCondition, TransactionAuthField, TransactionPublicKeyEncoding, SinglesigHashMode,
  MultisigHashMode, singlesig_from_u8, multisig_from_u8, key_encoding_from_u8, singlesig, multisig,
  public_key, signature, compressed, uncompressed, p2pkh, p2wpkh, p2sh, p2wsh, sponsored,
}

unfoldable pub is_compressed : TransactionPublicKeyEncoding → Bool
is_compressed compressed = true
is_compressed uncompressed = false

unfoldable pub is_p2wpkh : SinglesigHashMode → Bool
is_p2wpkh p2wpkh = true
is_p2wpkh p2pkh = false

unfoldable pub is_p2wsh : MultisigHashMode → Bool
is_p2wsh p2wsh = true
is_p2wsh p2sh = false

-- `checked_add(1)` on a `u16`
unfoldable pub checked_succ : ℕ → Option ℕ
checked_succ n = if ltb (n + 1) (2 ^ 16) then some (n + 1) else none

-- The loop that counts signatures and looks for uncompressed keys.
unfoldable pub count_fields : List TransactionAuthField → ℕ → Bool → Reader (ℕ × Bool)
count_fields [] num_sigs_given have_uncompressed = pure (num_sigs_given, have_uncompressed)
count_fields (signature key_encoding sig ∷ fields) num_sigs_given have_uncompressed = do
  num_sigs_given ← ok_or (checked_succ num_sigs_given) too_many_signatures
  count_fields fields num_sigs_given
      (if is_compressed key_encoding then have_uncompressed else true)
count_fields (public_key pubk ∷ fields) num_sigs_given have_uncompressed =
    count_fields fields num_sigs_given (if pubk.is_compressed then have_uncompressed else true)

-- The end of `MultisigSpendingCondition::deserialize`, behind its reads: the checks.
unfoldable pub check_multisig : MultisigSpendingCondition → Reader MultisigSpendingCondition
check_multisig cond = do
  (num_sigs_given, have_uncompressed) ← count_fields cond.fields 0 false
  ensure (num_sigs_given == cond.signatures_required)
      (wrong_signature_count num_sigs_given cond.signatures_required)
  ensure (not (have_uncompressed && is_p2wsh cond.hash_mode)) expected_compressed_keys
  pure cond

module _ (b : ByteOrder) where
  unfoldable pub read_public_key : Bool → Reader TransactionAuthField
  read_public_key is_compressed = do
    pubkey_bytes ← read_exact 33
    pure (public_key (record { key = pubkey_bytes; is_compressed = is_compressed }))

  unfoldable pub read_signature : TransactionPublicKeyEncoding → Reader TransactionAuthField
  read_signature key_encoding = do
    sig_bytes ← read_exact 65
    pure (signature key_encoding sig_bytes)

  -- `TransactionAuthField::deserialize`
  unfoldable pub read_auth_field : Reader TransactionAuthField
  read_auth_field = do
    field_id ← b.read_u8
    if field_id == 0x00
        then read_public_key true
        else if field_id == 0x01
        then read_public_key false
        else if field_id == 0x02
        then read_signature compressed
        else if field_id == 0x03
        then read_signature uncompressed
        else fail (unknown_auth_field_id field_id)

  -- `SinglesigSpendingCondition::deserialize`
  unfoldable pub read_singlesig : Reader SinglesigSpendingCondition
  read_singlesig = do
    hash_mode_u8 ← b.read_u8
    hash_mode ← ok_or (singlesig_from_u8 hash_mode_u8) (unknown_singlesig_hash_mode hash_mode_u8)
    signer ← read_exact 20
    nonce ← b.read_u64
    tx_fee ← b.read_u64
    key_encoding_u8 ← b.read_u8
    key_encoding ←
        ok_or (key_encoding_from_u8 key_encoding_u8) (unknown_key_encoding key_encoding_u8)
    signature_bytes ← read_exact 65
    ensure (not (is_p2wpkh hash_mode && not (is_compressed key_encoding))) incompatible_hash_mode
    pure (record {
      hash_mode = hash_mode;
      signer = signer;
      nonce = nonce;
      tx_fee = tx_fee;
      key_encoding = key_encoding;
      signature = signature_bytes;
    })

  -- `MultisigSpendingCondition::deserialize`
  unfoldable pub read_multisig : Reader MultisigSpendingCondition
  read_multisig = do
    hash_mode_u8 ← b.read_u8
    hash_mode ← ok_or (multisig_from_u8 hash_mode_u8) (unknown_multisig_hash_mode hash_mode_u8)
    signer ← read_exact 20
    nonce ← b.read_u64
    tx_fee ← b.read_u64
    len ← b.read_u32
    fields ← read_vec read_auth_field len
    signatures_required ← b.read_u16
    check_multisig (record {
      hash_mode = hash_mode;
      signer = signer;
      nonce = nonce;
      tx_fee = tx_fee;
      fields = fields;
      signatures_required = signatures_required;
    })

  unfoldable pub read_singlesig_condition : Reader TransactionSpendingCondition
  read_singlesig_condition = do cond ← read_singlesig; pure (singlesig cond)

  unfoldable pub read_multisig_condition : Reader TransactionSpendingCondition
  read_multisig_condition = do cond ← read_multisig; pure (multisig cond)

  -- The branches of `TransactionSpendingCondition::deserialize`, for what `from_u8` of the two
  -- kinds of hash modes found.
  unfoldable pub by_multisig : ℕ → Option MultisigHashMode → Reader TransactionSpendingCondition
  by_multisig hash_mode_u8 (some mode) = read_multisig_condition
  by_multisig hash_mode_u8 none = fail (invalid_hash_mode hash_mode_u8)

  unfoldable pub by_singlesig : ℕ → Option SinglesigHashMode → Reader TransactionSpendingCondition
  by_singlesig hash_mode_u8 (some mode) = read_singlesig_condition
  by_singlesig hash_mode_u8 none = by_multisig hash_mode_u8 (multisig_from_u8 hash_mode_u8)

  -- `TransactionSpendingCondition::deserialize`: the hash mode is read, and read again.
  unfoldable pub read_spending_condition : Reader TransactionSpendingCondition
  read_spending_condition = do
    hash_mode_u8 ← b.read_u8
    position ← get_position
    set_position (position - 1)
    by_singlesig hash_mode_u8 (singlesig_from_u8 hash_mode_u8)

  unfoldable pub read_standard_auth : Reader TransactionAuth
  read_standard_auth = do
    origin_auth ← read_spending_condition
    pure (TransactionAuth.standard origin_auth)

  unfoldable pub read_sponsored_auth : Reader TransactionAuth
  read_sponsored_auth = do
    origin_auth ← read_spending_condition
    sponsor_auth ← read_spending_condition
    pure (sponsored origin_auth sponsor_auth)

  -- `TransactionAuth::deserialize`
  unfoldable pub read_auth : Reader TransactionAuth
  read_auth = do
    type_id ← b.read_u8
    if type_id == 0x04
        then read_standard_auth
        else if type_id == 0x05
        then read_sponsored_auth
        else fail (unrecognized_auth_flags type_id)
