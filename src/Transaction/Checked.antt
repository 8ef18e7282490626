-- ===== src/Transaction/Checked.antt =====
-- What the deserializers of stacks_tx/deserialize.rs guarantee of every authorization they return.
use stacks_encoding_native_j.Prelude.{
  ◌==◌, ok, Option, some, none, refl, sym, ℕ, ◌≡◌, Bool, true, false, not, ◌&&◌,
}
use stacks_encoding_native_j.Wire.Ensures.{
  Ensures, Ensures-read, Ensures-bind, Ensures-pure, Ensures-fail, Ensures-then, Ensures-if,
  Ensures-eq, Ensures-ensure,
}
use stacks_encoding_native_j.Wire.ByteOrder.{ByteOrder}
use stacks_encoding_native_j.Transaction.Types.{
  StacksTransaction, TransactionAuth, TransactionSpendingCondition, SinglesigSpendingCondition,
  singlesig_from_u8, multisig_from_u8, SinglesigHashMode, MultisigHashMode, singlesig, multisig,
  sponsored,
}
use stacks_encoding_native_j.Transaction.Auth.{
  read_singlesig, read_multisig, read_singlesig_condition, read_multisig_condition, by_singlesig,
  by_multisig, read_spending_condition, read_auth, read_standard_auth, read_sponsored_auth,
  is_compressed, is_p2wpkh,
}
use stacks_encoding_native_j.Wire.Cursor.{Cursor}
use stacks_encoding_native_j.Wire.Error.{unrecognized_auth_flags}
use stacks_encoding_native_j.Transaction.Deserialize.{read_transaction}
use stacks_encoding_native_j.Transaction.Multisig.{IsMultisig, check_multisig-Ensures}

-- A key for p2wpkh is compressed.
abbrev pub IsSinglesig : SinglesigSpendingCondition → Type 0
IsSinglesig cond = (is_p2wpkh cond.hash_mode && not (is_compressed cond.key_encoding)) ≡ false

not-false : (t : Bool) → not t ≡ true → t ≡ false
not-false true h = sym h
not-false false h = refl

abbrev pub IsChecked : TransactionSpendingCondition → Type 0
IsChecked (singlesig cond) = IsSinglesig cond
IsChecked (multisig cond) = IsMultisig cond

abbrev pub IsCheckedAuth : TransactionAuth → Type 0
IsCheckedAuth (TransactionAuth.standard origin_auth) = IsChecked origin_auth
IsCheckedAuth (sponsored origin_auth sponsor_auth) = IsChecked origin_auth × IsChecked sponsor_auth

module _ (b : ByteOrder) where
  read_singlesig-Ensures : Ensures IsSinglesig (read_singlesig b)
  unfolding read_singlesig
  read_singlesig-Ensures = Ensures-read IsSinglesig _ _ λ u. Ensures-read IsSinglesig _ _ λ mode.
      Ensures-read IsSinglesig _ _ λ signer. Ensures-read IsSinglesig _ _ λ nonce.
        Ensures-read IsSinglesig _ _ λ fee. Ensures-read IsSinglesig _ _ λ v.
          Ensures-read IsSinglesig _ _ λ enc.
            Ensures-read IsSinglesig _ _ λ sig.
              Ensures-ensure IsSinglesig _ _ _ λ h. Ensures-pure IsSinglesig _ (not-false _ h)

  read_multisig-Ensures : Ensures IsMultisig (read_multisig b)
  unfolding read_multisig
  read_multisig-Ensures = Ensures-read IsMultisig _ _ λ u. Ensures-read IsMultisig _ _ λ mode.
      Ensures-read IsMultisig _ _ λ signer. Ensures-read IsMultisig _ _ λ nonce.
        Ensures-read IsMultisig _ _ λ fee. Ensures-read IsMultisig _ _ λ len.
          Ensures-read IsMultisig _ _
            λ fields. Ensures-read IsMultisig _ _ λ required. check_multisig-Ensures _

  by_multisig-Ensures :
      (u : ℕ) (o : Option MultisigHashMode) → Ensures IsChecked (by_multisig b u o)
  unfolding by_multisig read_multisig_condition
  by_multisig-Ensures u (some mode) =
      Ensures-bind IsMultisig IsChecked _ _ read_multisig-Ensures
        λ cond h. Ensures-pure IsChecked _ h
  by_multisig-Ensures u none = Ensures-fail IsChecked _

  by_singlesig-Ensures :
      (u : ℕ) (o : Option SinglesigHashMode) → Ensures IsChecked (by_singlesig b u o)
  unfolding by_singlesig read_singlesig_condition
  by_singlesig-Ensures u (some mode) =
      Ensures-bind IsSinglesig IsChecked _ _ read_singlesig-Ensures
        λ cond h. Ensures-pure IsChecked _ h
  by_singlesig-Ensures u none = by_multisig-Ensures u (multisig_from_u8 u)

  read_spending_condition-Ensures : Ensures IsChecked (read_spending_condition b)
  unfolding read_spending_condition
  read_spending_condition-Ensures = Ensures-read IsChecked _ _ λ u.
      Ensures-read IsChecked _ _
        λ p. Ensures-then IsChecked _ _ (by_singlesig-Ensures u (singlesig_from_u8 u))

  read_standard_auth-Ensures : Ensures IsCheckedAuth (read_standard_auth b)
  unfolding read_standard_auth
  read_standard_auth-Ensures =
      Ensures-bind IsChecked IsCheckedAuth _ _ read_spending_condition-Ensures
        λ o h. Ensures-pure IsCheckedAuth (TransactionAuth.standard o) h

  read_sponsored_auth-Ensures : Ensures IsCheckedAuth (read_sponsored_auth b)
  unfolding read_sponsored_auth
  read_sponsored_auth-Ensures =
      Ensures-bind IsChecked IsCheckedAuth _ _ read_spending_condition-Ensures λ o h.
        Ensures-bind IsChecked IsCheckedAuth _ _ read_spending_condition-Ensures
          λ p k. Ensures-pure IsCheckedAuth (sponsored o p) (h, k)

  read_auth-Ensures : Ensures IsCheckedAuth (read_auth b)
  unfolding read_auth
  read_auth-Ensures = Ensures-read IsCheckedAuth _ _ λ t.
      Ensures-if IsCheckedAuth (t == 4) _ _ read_standard_auth-Ensures (
        Ensures-if IsCheckedAuth (t == 5) _ _ read_sponsored_auth-Ensures
          (Ensures-fail IsCheckedAuth (unrecognized_auth_flags t)))

  read_transaction-Ensures : Ensures (λ tx. IsCheckedAuth tx.auth) (read_transaction b)
  unfolding read_transaction
  read_transaction-Ensures =
      let Q : StacksTransaction → Type 0 = λ tx. IsCheckedAuth tx.auth in
      Ensures-read Q _ _ λ v. Ensures-read Q _ _ λ chain.
        Ensures-bind IsCheckedAuth Q _ _ read_auth-Ensures λ auth h. Ensures-read Q _ _ λ mode.
          Ensures-read Q _ _ λ pos. Ensures-read Q _ _ λ pc. Ensures-read Q _ _ λ len.
            Ensures-read Q _ _ λ pcs. Ensures-read Q _ _ λ bytes.
              Ensures-read Q _ _
                λ payload. Ensures-read Q _ _ λ anchor. Ensures-read Q _ _ λ pcm. Ensures-pure Q _ h

  -- Every spending condition of a transaction that is read, from any input and with any
  -- implementation of the byte readers, has passed its checks: a p2wpkh key is compressed, a
  -- multisig condition has as many signatures as it requires, and all keys behind p2wsh are
  -- compressed.
  pub read_transaction-IsCheckedAuth :
      (tx : StacksTransaction) (c c' : Cursor)
      → read_transaction b c ≡ ok (tx, c')
      → IsCheckedAuth tx.auth
  read_transaction-IsCheckedAuth tx c c' h =
      Ensures-eq (λ t. IsCheckedAuth t.auth) (read_transaction b) c tx c' read_transaction-Ensures h
