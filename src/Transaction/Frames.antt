-- ===== src/Transaction/Frames.antt =====
-- Panics and consumption of the deserializers of authorizations, in stacks_tx/deserialize.rs.
use stacks_encoding_native_j.Prelude.{
  if◌then◌else◌, ℕ, ◌-◌, ◌==◌, ◌≤◌, ◌≡◌, refl, arith, Bool, true, false, Option, some, none,
}
use stacks_encoding_native_j.Prelude.{
  List, [], ◌∷◌, ◌++◌, length, length-append, take-append, drop-append, append_assoc, err,
}
use stacks_encoding_native_j.Wire.Cursor.{position}
use stacks_encoding_native_j.Wire.ByteOrder.{big_endian}
use stacks_encoding_native_j.Wire.Reader.{
  ◌>>=◌, ◌>>◌, read_be, from_be_bytes, set_position, read_exact,
}
use stacks_encoding_native_j.Wire.Error.{io_error, unknown_auth_field_id, unrecognized_auth_flags}
use stacks_encoding_native_j.Wire.Laws.{at, Reads-exact}
use stacks_encoding_native_j.Wire.Frames.{
  Frames, Safe, Frames-pure, Frames-fail, Frames-ok_or, Frames-ensure, Frames-if, Frames-bind,
  Frames-then, Frames-exact, Frames-be, Frames-vec,
}
use stacks_encoding_native_j.Transaction.Types.{
  TransactionAuthField, TransactionPublicKeyEncoding, MultisigSpendingCondition, SinglesigHashMode,
  MultisigHashMode, singlesig_from_u8, multisig_from_u8, compressed, uncompressed, signature,
  public_key,
}
use stacks_encoding_native_j.Transaction.Auth.{
  count_fields, check_multisig, read_public_key, read_signature, read_auth_field, read_singlesig,
  read_multisig, read_singlesig_condition, read_multisig_condition, by_multisig, by_singlesig,
  read_spending_condition, read_standard_auth, read_sponsored_auth, read_auth, is_compressed,
}

module _ (n : ℕ) where
  Frames-count :
      (fields : List TransactionAuthField) (k : ℕ) (u : Bool) → Frames n (count_fields fields k u)
  unfolding count_fields
  Frames-count [] k u = Frames-pure n _
  Frames-count (signature e s ∷ fields) k u =
      Frames-bind n _ _ (Frames-ok_or n _ _)
        λ k'. Frames-count fields k' (if is_compressed e then u else true)
  Frames-count (public_key p ∷ fields) k u =
      Frames-count fields k (if p.is_compressed then u else true)

  Frames-check : (cond : MultisigSpendingCondition) → Frames n (check_multisig cond)
  unfolding check_multisig
  Frames-check cond = Frames-bind n _ _ (Frames-count cond.fields 0 false) λ (k, u).
      Frames-then n _ _ (Frames-ensure n _ _)
        (Frames-then n _ _ (Frames-ensure n _ _) (Frames-pure n cond))

  Frames-public_key : (c : Bool) → Frames n (read_public_key big_endian c)
  unfolding read_public_key
  Frames-public_key c = Frames-bind n _ _ (Frames-exact n 33) λ bytes. Frames-pure n _

  Frames-signature : (e : TransactionPublicKeyEncoding) → Frames n (read_signature big_endian e)
  unfolding read_signature
  Frames-signature e = Frames-bind n _ _ (Frames-exact n 65) λ bytes. Frames-pure n _

  Frames-auth_field : Frames n (read_auth_field big_endian)
  unfolding read_auth_field
  Frames-auth_field = Frames-bind n _ _ (Frames-be n 1) λ t.
      Frames-if n (t == 0x00) _ _ (Frames-public_key true) (
        Frames-if n (t == 0x01) _ _ (Frames-public_key false) (
          Frames-if n (t == 0x02) _ _ (Frames-signature compressed) (
            Frames-if n (t == 0x03) _ _ (Frames-signature uncompressed)
              (Frames-fail n (unknown_auth_field_id t)))))

  Frames-singlesig : Frames n (read_singlesig big_endian)
  unfolding read_singlesig
  Frames-singlesig = Frames-bind n _ _ (Frames-be n 1) λ u.
      Frames-bind n _ _ (Frames-ok_or n _ _) λ mode. Frames-bind n _ _ (Frames-exact n 20) λ signer.
        Frames-bind n _ _ (Frames-be n 8) λ nonce. Frames-bind n _ _ (Frames-be n 8) λ fee.
          Frames-bind n _ _ (Frames-be n 1) λ v. Frames-bind n _ _ (Frames-ok_or n _ _) λ enc.
            Frames-bind n _ _ (Frames-exact n 65)
              λ sig. Frames-then n _ _ (Frames-ensure n _ _) (Frames-pure n _)

  Frames-multisig : Frames n (read_multisig big_endian)
  unfolding read_multisig
  Frames-multisig = Frames-bind n _ _ (Frames-be n 1) λ u.
      Frames-bind n _ _ (Frames-ok_or n _ _) λ mode. Frames-bind n _ _ (Frames-exact n 20) λ signer.
        Frames-bind n _ _ (Frames-be n 8) λ nonce. Frames-bind n _ _ (Frames-be n 8) λ fee.
          Frames-bind n _ _ (Frames-be n 4) λ len.
            Frames-bind n _ _ (Frames-vec n _ len Frames-auth_field)
              λ fields. Frames-bind n _ _ (Frames-be n 2) λ required. Frames-check _

  Frames-by_multisig : (u : ℕ) (o : Option MultisigHashMode) → Frames n (by_multisig big_endian u o)
  unfolding by_multisig read_multisig_condition
  Frames-by_multisig u (some m) = Frames-bind n _ _ Frames-multisig λ cond. Frames-pure n _
  Frames-by_multisig u none = Frames-fail n _

  Frames-by_singlesig :
      (u : ℕ) (o : Option SinglesigHashMode) → Frames n (by_singlesig big_endian u o)
  unfolding by_singlesig read_singlesig_condition
  Frames-by_singlesig u (some m) = Frames-bind n _ _ Frames-singlesig λ cond. Frames-pure n _
  Frames-by_singlesig u none = Frames-by_multisig u (multisig_from_u8 u)

-- The byte of the hash mode is still there when the condition is read.
spending_condition-peek :
    (x : ℕ) (pre rest : List ℕ)
    → read_spending_condition big_endian (at pre (x ∷ rest))
      ≡ by_singlesig big_endian
          (from_be_bytes (x ∷ []))
          (singlesig_from_u8 (from_be_bytes (x ∷ [])))
          (at pre (x ∷ rest))
unfolding read_spending_condition ◌>>=◌ ◌>>◌ read_be position set_position
spending_condition-peek x pre rest =
    let back : length (pre ++ (x ∷ [])) - 1 ≡ length pre =
      omega (arith, length-append pre (x ∷ [])) in
    rw
      (
        Reads-exact 1 (x ∷ []) refl pre rest,
        back,
        append_assoc pre (x ∷ []) rest,
        take-append pre (x ∷ rest),
        drop-append pre (x ∷ rest),
      )
      refl

spending_condition-end :
    (pre : List ℕ) → read_spending_condition big_endian (at pre []) ≡ err io_error
unfolding read_spending_condition ◌>>=◌ read_be read_exact
spending_condition-end pre = refl

Safe-spending_condition :
    (n : ℕ) (pre rest : List ℕ)
    → n ≤ length pre
    → Safe (at pre rest) (read_spending_condition big_endian (at pre rest))
Safe-spending_condition n pre [] l = rw (spending_condition-end pre) tt
Safe-spending_condition n pre (x ∷ rest) l =
    let u = from_be_bytes (x ∷ []) in
    rw (spending_condition-peek x pre rest)
      ((Frames-by_singlesig n u (singlesig_from_u8 u)).at_every (at pre (x ∷ rest)) l)

module _ (n : ℕ) where
  Frames-spending_condition : Frames n (read_spending_condition big_endian)
  Frames-spending_condition = record {
    at_every = λ c l. Safe-spending_condition n c.consumed c.rest l;
  }

  Frames-standard_auth : Frames n (read_standard_auth big_endian)
  unfolding read_standard_auth
  Frames-standard_auth = Frames-bind n _ _ Frames-spending_condition λ o. Frames-pure n _

  Frames-sponsored_auth : Frames n (read_sponsored_auth big_endian)
  unfolding read_sponsored_auth
  Frames-sponsored_auth =
      Frames-bind n _ _ Frames-spending_condition
        λ o. Frames-bind n _ _ Frames-spending_condition λ p. Frames-pure n _

  pub Frames-auth : Frames n (read_auth big_endian)
  unfolding read_auth
  Frames-auth = Frames-bind n _ _ (Frames-be n 1) λ t.
      Frames-if n (t == 0x04) _ _ Frames-standard_auth (
        Frames-if n (t == 0x05) _ _ Frames-sponsored_auth
          (Frames-fail n (unrecognized_auth_flags t)))
