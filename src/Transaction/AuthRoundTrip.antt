-- ===== src/Transaction/AuthRoundTrip.antt =====
-- The authorizations of stacks_tx/deserialize.rs behind the wire format of Serialize.
use stacks_encoding_native_j.Prelude.{
  ℕ, ◌^◌, ◌≡◌, refl, arith, Bool, true, false, not, ◌&&◌, List, ◌∷◌, length, some, none, ok,
  ==_refl, lt→leb,
}
use stacks_encoding_native_j.Wire.Cursor.{Cursor}
use stacks_encoding_native_j.Wire.Reader.{pure, ◌>>=◌, ◌>>◌, ensure}
use stacks_encoding_native_j.Wire.ByteOrder.{big_endian}
use stacks_encoding_native_j.Wire.Laws.{
  Reads, Reads-map, Reads-bind, Reads-exact, Reads-be, Reads-tag, Reads-return, Reads-last,
}
use stacks_encoding_native_j.Wire.Marked.{Reads-vec, Reads-peek}
use stacks_encoding_native_j.Transaction.Types.{
  TransactionAuth, TransactionSpendingCondition, SinglesigSpendingCondition,
  MultisigSpendingCondition, TransactionAuthField, TransactionPublicKeyEncoding, SinglesigHashMode,
  MultisigHashMode, singlesig_from_u8, multisig_from_u8, key_encoding_from_u8, singlesig, multisig,
  public_key, signature, compressed, uncompressed, p2pkh, p2wpkh, p2sh, p2wsh, sponsored,
}
use stacks_encoding_native_j.Transaction.Codes.{singlesig_u8, multisig_u8, key_encoding_u8}
use stacks_encoding_native_j.Transaction.Auth.{
  read_singlesig, read_multisig, read_singlesig_condition, read_multisig_condition, by_singlesig,
  by_multisig, read_spending_condition, read_auth, read_standard_auth, read_sponsored_auth,
  read_auth_field, read_public_key, read_signature, check_multisig, is_compressed, is_p2wpkh,
}
use stacks_encoding_native_j.Wire.Error.{incompatible_hash_mode}
use stacks_encoding_native_j.Transaction.Checked.{IsSinglesig}
use stacks_encoding_native_j.Transaction.Multisig.{signatures, check_multisig-eq}
use stacks_encoding_native_j.Transaction.Serialize.{
  key_field_u8, field_bytes, singlesig_bytes, multisig_bytes, spending_bytes, auth_bytes,
  IsFieldWire, IsSinglesigWire, IsMultisigWire, IsSpendingWire, IsAuthWire,
}

singlesig_from_u8-singlesig_u8 :
    (mode : SinglesigHashMode) → singlesig_from_u8 (singlesig_u8 mode) ≡ some mode
unfolding singlesig_from_u8 singlesig_u8
singlesig_from_u8-singlesig_u8 p2pkh = refl
singlesig_from_u8-singlesig_u8 p2wpkh = refl

singlesig_from_u8-multisig_u8 :
    (mode : MultisigHashMode) → singlesig_from_u8 (multisig_u8 mode) ≡ none
unfolding singlesig_from_u8 multisig_u8
singlesig_from_u8-multisig_u8 p2sh = refl
singlesig_from_u8-multisig_u8 p2wsh = refl

multisig_from_u8-multisig_u8 :
    (mode : MultisigHashMode) → multisig_from_u8 (multisig_u8 mode) ≡ some mode
unfolding multisig_from_u8 multisig_u8
multisig_from_u8-multisig_u8 p2sh = refl
multisig_from_u8-multisig_u8 p2wsh = refl

key_encoding_from_u8-key_encoding_u8 :
    (e : TransactionPublicKeyEncoding) → key_encoding_from_u8 (key_encoding_u8 e) ≡ some e
unfolding key_encoding_from_u8 key_encoding_u8
key_encoding_from_u8-key_encoding_u8 compressed = refl
key_encoding_from_u8-key_encoding_u8 uncompressed = refl

Reads-key :
    (key : List ℕ) (c : Bool)
    → length key ≡ 33
    → Reads
        (read_auth_field big_endian)
        (key_field_u8 c ∷ key)
        (public_key (record { key = key; is_compressed = c }))
unfolding read_auth_field read_public_key key_field_u8
Reads-key key true h = Reads-tag _ 0 key _ (Reads-map _ _ key key (Reads-exact 33 key h))
Reads-key key false h = Reads-tag _ 1 key _ (Reads-map _ _ key key (Reads-exact 33 key h))

Reads-field :
    (f : TransactionAuthField)
    → IsFieldWire f
    → Reads (read_auth_field big_endian) (field_bytes f) f
unfolding read_auth_field field_bytes read_signature
Reads-field (public_key k) h = Reads-key k.key k.is_compressed h
Reads-field (signature compressed s) h = Reads-tag _ 2 s _ (Reads-map _ _ s s (Reads-exact 65 s h))
Reads-field (signature uncompressed s) h =
    Reads-tag _ 3 s _ (Reads-map _ _ s s (Reads-exact 65 s h))

checked_singlesig :
    (cond : SinglesigSpendingCondition)
    → IsSinglesig cond
    → (c : Cursor)
    → (ensure
            (not (is_p2wpkh cond.hash_mode && not (is_compressed cond.key_encoding)))
            incompatible_hash_mode
          >> pure cond)
        c
      ≡ ok (cond, c)
unfolding ◌>>◌
checked_singlesig cond h c = rw h refl

Reads-singlesig :
    (cond : SinglesigSpendingCondition)
    → IsSinglesigWire cond
    → Reads (read_singlesig big_endian) (singlesig_bytes cond) cond
unfolding read_singlesig singlesig_bytes
Reads-singlesig cond h = Reads-tag _ (singlesig_u8 cond.hash_mode) _ cond (
    rw (singlesig_from_u8-singlesig_u8 cond.hash_mode) (
      Reads-return _ cond.hash_mode _ cond (
        Reads-bind _ _ _ _ _ _ (Reads-exact 20 cond.signer h.signer_length) (
          Reads-bind _ _ _ _ _ _ (Reads-be 8 cond.nonce h.nonce_u64) (
            Reads-bind _ _ _ _ _ _ (Reads-be 8 cond.tx_fee h.tx_fee_u64) (
              Reads-tag _ (key_encoding_u8 cond.key_encoding) _ cond (
                rw (key_encoding_from_u8-key_encoding_u8 cond.key_encoding) (
                  Reads-return _ cond.key_encoding _ cond (
                    Reads-last _ _ _ _ _ (Reads-exact 65 cond.signature h.signature_length)
                      (checked_singlesig cond h.checked))))))))))

checked_multisig :
    (cond : MultisigSpendingCondition)
    → IsMultisigWire cond
    → (c : Cursor) → check_multisig cond c ≡ ok (cond, c)
checked_multisig cond h c =
    let (enough, compressed_keys) = h.checked in
    rw
      (
        check_multisig-eq cond c,
        lt→leb (2 ^ 16) (signatures cond.fields) (omega (arith, enough, h.required_u16)),
        enough,
        ==_refl cond.signatures_required,
        compressed_keys,
      )
      refl

Reads-multisig :
    (cond : MultisigSpendingCondition)
    → IsMultisigWire cond
    → Reads (read_multisig big_endian) (multisig_bytes cond) cond
unfolding read_multisig multisig_bytes
Reads-multisig cond h = Reads-tag _ (multisig_u8 cond.hash_mode) _ cond (
    rw (multisig_from_u8-multisig_u8 cond.hash_mode) (
      Reads-return _ cond.hash_mode _ cond (
        Reads-bind _ _ _ _ _ _ (Reads-exact 20 cond.signer h.signer_length) (
          Reads-bind _ _ _ _ _ _ (Reads-be 8 cond.nonce h.nonce_u64) (
            Reads-bind _ _ _ _ _ _ (Reads-be 8 cond.tx_fee h.tx_fee_u64) (
              Reads-bind _ _ _ _ _ _ (Reads-be 4 (length cond.fields) h.count_u32) (
                Reads-bind _ _ _ _ _ _
                  (Reads-vec IsFieldWire (read_auth_field big_endian) field_bytes Reads-field
                    cond.fields h.all_fields)
                  (Reads-last _ _ _ _ _ (Reads-be 2 cond.signatures_required h.required_u16)
                    (checked_multisig cond h)))))))))

by_singlesig-singlesig :
    (cond : SinglesigSpendingCondition)
    → IsSinglesigWire cond
    → Reads
        (by_singlesig big_endian
          (singlesig_u8 cond.hash_mode)
          (singlesig_from_u8 (singlesig_u8 cond.hash_mode)))
        (singlesig_bytes cond)
        (singlesig cond)
unfolding by_singlesig read_singlesig_condition
by_singlesig-singlesig cond h =
    rw (singlesig_from_u8-singlesig_u8 cond.hash_mode)
      (Reads-map _ singlesig (singlesig_bytes cond) cond (Reads-singlesig cond h))

by_singlesig-multisig :
    (cond : MultisigSpendingCondition)
    → IsMultisigWire cond
    → Reads
        (by_singlesig big_endian
          (multisig_u8 cond.hash_mode)
          (singlesig_from_u8 (multisig_u8 cond.hash_mode)))
        (multisig_bytes cond)
        (multisig cond)
unfolding by_singlesig by_multisig read_multisig_condition
by_singlesig-multisig cond h =
    rw (singlesig_from_u8-multisig_u8 cond.hash_mode, multisig_from_u8-multisig_u8 cond.hash_mode)
      (Reads-map _ multisig (multisig_bytes cond) cond (Reads-multisig cond h))

Reads-spending :
    (cond : TransactionSpendingCondition)
    → IsSpendingWire cond
    → Reads (read_spending_condition big_endian) (spending_bytes cond) cond
unfolding read_spending_condition spending_bytes ◌>>=◌ singlesig_bytes multisig_bytes
Reads-spending (singlesig cond) h =
    Reads-peek (λ u. by_singlesig big_endian u (singlesig_from_u8 u)) (singlesig_u8 cond.hash_mode)
      _ (singlesig cond) (by_singlesig-singlesig cond h)
Reads-spending (multisig cond) h =
    Reads-peek (λ u. by_singlesig big_endian u (singlesig_from_u8 u)) (multisig_u8 cond.hash_mode) _
      (multisig cond) (by_singlesig-multisig cond h)

pub Reads-auth :
    (auth : TransactionAuth) → IsAuthWire auth → Reads (read_auth big_endian) (auth_bytes auth) auth
unfolding read_auth auth_bytes read_standard_auth read_sponsored_auth
Reads-auth (TransactionAuth.standard origin_auth) h =
    Reads-tag _ 4 _ _ (Reads-map _ _ _ _ (Reads-spending origin_auth h))
Reads-auth (sponsored origin_auth sponsor_auth) h = Reads-tag _ 5 _ _ (
    Reads-bind _ _ _ _ _ _ (Reads-spending origin_auth h.0)
      (Reads-map _ _ _ _ (Reads-spending sponsor_auth h.1)))
