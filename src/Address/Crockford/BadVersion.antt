-- ===== src/Address/Crockford/BadVersion.antt =====
-- Addresses whose version character is not in the alphabet, in `c32_check_decode` of address/c32.rs.
use stacks_encoding_native_j.Prelude.{
  ℕ, suc, ◌<◌, ◌≡◌, ◌≢◌, arith, List, ◌∷◌, length, length-map, map, none, lt→leb, le→leb, lt→ltb,
  ok, panic, Outcome, Option-cases, inl, inr, sym, ◌∙◌, refl,
}
use stacks_encoding_native_j.Radix.{Digits}
use stacks_encoding_native_j.Text.Utf8.{is_boundary}
use stacks_encoding_native_j.Address.Crockford.Tables.{
  digit_char, normalize, c32_digit, c32_digit_bounded, digit_char-c32_digit,
}
use stacks_encoding_native_j.Address.Crockford.Defs.{C32Error}
use stacks_encoding_native_j.Address.Crockford.DecodeDefs.{is_ascii}
use stacks_encoding_native_j.Address.Crockford.Encode.{c32_digits, c32_digits-Digits}
use stacks_encoding_native_j.Address.Crockford.Decode.{is_ascii-map, c32_decode_ascii-c32_digits}
use stacks_encoding_native_j.Address.Crockford.Sound.{decode-bad_digit}
use stacks_encoding_native_j.Address.Crockford.Check.{
  IsSha256, check_sum, c32_check_decode, skip_first, c32_address_decode, c32_address,
}
use stacks_encoding_native_j.Address.Crockford.RoundTrip.{
  summed, summed-Digits, c32_digits-long_enough, length-summed, c32_address-eq,
}

abbrev written : List ℕ → Outcome C32Error (List ℕ)
written text = ok text

written-eq :
    {s v s' v' : ℕ} {xs ys : List ℕ} → written (s ∷ v ∷ xs) ≡ written (s' ∷ v' ∷ ys) → xs ≡ ys
written-eq h = cc h

-- A character is looked up in vain if its spelling in upper case, with O, I and L as digits, is none
-- of the alphabet's.
c32_digit-eq-none : (x : ℕ) → ((d : ℕ) → d < 32 → digit_char d ≢ normalize x) → c32_digit x ≡ none
c32_digit-eq-none x out = elim (Option-cases (c32_digit x)) [
  | inl e ↦ e
  | inr (d, e) ↦ absurd (out d (c32_digit_bounded x d e) (digit_char-c32_digit x d e))
]

module _ (sha256 : List ℕ → List ℕ) (h : IsSha256 sha256) where
  -- The checksummed digits behind a character that is not in the alphabet.
  c32_check_decode-bad_version :
      (version : ℕ) (bytes : List ℕ) (bad : ℕ)
      → Digits 256 bytes
      → length bytes ≡ 20
      → bad < 128
      → c32_digit bad ≡ none
      → c32_check_decode sha256 (bad ∷ map digit_char (c32_digits (summed sha256 h bytes version)))
        ≡ panic
  unfolding c32_check_decode check_sum is_ascii
  c32_check_decode-bad_version version bytes bad hb hl ha hn =
      let sum = summed sha256 h bytes version in
      let digits = summed-Digits sha256 h version bytes hb in
      rw
        (
          lt→ltb bad 128 ha,
          is_ascii-map (c32_digits sum) (c32_digits-Digits sum digits),
          le→leb 2 (suc (length (map digit_char (c32_digits sum)))) (
              omega (
                arith,
                length-map digit_char (c32_digits sum),
                c32_digits-long_enough sha256 h version bytes hb hl,
              )),
          c32_decode_ascii-c32_digits sum digits,
          le→leb 4 (length sum) (omega (arith, length-summed sha256 h version bytes hl)),
          decode-bad_digit bad hn,
        )
        refl

  -- For a hash function with digests of 32 bytes, and the address that `c32_address` writes for a
  -- version below 32 and a 20-byte hash: with its second character replaced by any ASCII character
  -- that, in upper case and with O, I and L read as digits, is not in the alphabet, it makes
  -- `c32_address_decode` panic.
  pub c32_address_decode-panic :
      (version : ℕ) (bytes : List ℕ) (first second : ℕ) (rest : List ℕ) (bad : ℕ)
      → version < 32
      → Digits 256 bytes
      → length bytes ≡ 20
      → c32_address sha256 version bytes ≡ ok (first ∷ second ∷ rest)
      → bad < 128
      → ((d : ℕ) → d < 32 → digit_char d ≢ normalize bad)
      → c32_address_decode sha256 (first ∷ bad ∷ rest) ≡ panic
  unfolding c32_address_decode skip_first is_boundary
  c32_address_decode-panic version bytes first second rest bad hv hb hl e ha out =
      let digits = c32_digits (summed sha256 h bytes version) in
      let same : map digit_char digits ≡ rest =
        written-eq (sym (c32_address-eq sha256 h version bytes hv hb) ∙ e) in
      rw
        (
          sym same,
          lt→leb (suc (suc (length (map digit_char digits)))) 5 (
              omega (
                arith,
                length-map digit_char digits,
                c32_digits-long_enough sha256 h version bytes hb hl,
              )),
          lt→ltb bad 128 ha,
        )
        (c32_check_decode-bad_version version bytes bad hb hl ha (c32_digit-eq-none bad out))
