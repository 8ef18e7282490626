-- ===== src/Address/Crockford/RoundTrip.antt =====
-- `c32_address_decode` of address/c32.rs behind `c32_address`.
use stacks_encoding_native_j.Prelude.{
  ℕ, zero, suc, ◌+◌, ◌-◌, ◌*◌, ◌≤◌, ◌<◌, ◌≡◌, refl, ap, ◌∙◌, subst,
}
use stacks_encoding_native_j.Prelude.{arith, List, [], ◌∷◌, ◌++◌, map, reverse, length, take, drop}
use stacks_encoding_native_j.Prelude.{length-append, length-take, take-append, drop-append, All}
use stacks_encoding_native_j.Prelude.{
  length-reverse, length-replicate, All-append, All-take, get_or,
}
use stacks_encoding_native_j.Prelude.{
  ok, ◌>>=◌, ==_refl, true, length-map, ltb→lt, lt→leb, le→leb, lt→ltb,
}
use stacks_encoding_native_j.Radix.{value, Digits, zeros, leading_zeros, skip_zeros}
use stacks_encoding_native_j.Radix.{SameNumber-unique, SameNumber-sym, SameNumber-trans}
use stacks_encoding_native_j.Radix.{length-skip_zeros}
use stacks_encoding_native_j.Text.Utf8.{from_utf8-ascii, is_boundary}
use stacks_encoding_native_j.Address.Crockford.Tables.{
  digit_char, digit_char-ascii, c32_characters-digit_char,
}
use stacks_encoding_native_j.Address.Crockford.Defs.{get_max_c32_encode_output_len}
use stacks_encoding_native_j.Address.Crockford.DecodeDefs.{c32_decode_ascii}
use stacks_encoding_native_j.Address.Crockford.Bytes.{regroup, length-regroup}
use stacks_encoding_native_j.Address.Crockford.Encode.{
  c32_digits, c32_digits-Digits, c32_encode_to_buffer-eq,
}
use stacks_encoding_native_j.Address.Crockford.Decode.{
  bytes_of, bytes_of-SameNumber, bytes_of-Digits,
}
use stacks_encoding_native_j.Address.Crockford.Decode.{
  decode-map, is_ascii-map, bytes_of-c32_digits,
}
use stacks_encoding_native_j.Address.Crockford.Decode.{c32_decode_ascii-c32_digits}
use stacks_encoding_native_j.Address.Crockford.Check.{
  IsSha256, checksum, c32_check_encode_prefixed, same_sum, check_sum, c32_check_decode, skip_first,
  c32_address_decode, c32_address,
}

-- One digit is one byte.
pub one_digit : (d : ℕ) → d < 32 → c32_decode_ascii (digit_char d ∷ []) ≡ ok (d ∷ [])
one_digit d h =
    decode-map (d ∷ []) (h, tt)
    ∙ ap ok (
        SameNumber-unique 256 (bytes_of (d ∷ [])) (d ∷ []) (omega arith)
          (bytes_of-Digits (d ∷ []) (h, tt)) (omega arith, tt)
          (SameNumber-trans 256 (bytes_of (d ∷ [])) 32 (d ∷ []) 256 (d ∷ [])
            (SameNumber-sym 32 (d ∷ []) 256 (bytes_of (d ∷ []))
              (bytes_of-SameNumber (d ∷ []) (h, tt)))
            (record { same_zeros = refl; same_value = unfold value in omega arith })))

-- A text is not much shorter than what it decodes to.
length-bytes_of : (ds : List ℕ) → length (bytes_of ds) ≤ 2 * length ds + 1
length-bytes_of ds =
    let bytes = regroup 0 0 (reverse ds) in
    omega (
      arith,
      length-append (zeros (leading_zeros ds)) (skip_zeros (reverse bytes)),
      length-replicate {A = ℕ} (leading_zeros ds) 0,
      length-skip_zeros (reverse bytes),
      length-skip_zeros ds,
      length-reverse bytes,
      length-regroup 0 0 (reverse ds) (omega arith),
      length-reverse ds,
    )

get_or-take : (n i : ℕ) (xs : List ℕ) → i < n → get_or 0 (take n xs) i ≡ get_or 0 xs i
get_or-take zero i xs h = absurd (omega arith)
get_or-take (suc n) i [] h = refl
get_or-take (suc n) zero (x ∷ xs) h = refl
get_or-take (suc n) (suc i) (x ∷ xs) h = get_or-take n i xs (omega arith)

same_sum-take : (sum : List ℕ) → same_sum sum (take 4 sum) ≡ true
unfolding same_sum
same_sum-take sum = simp (
  get_or-take 4 0 sum (omega arith),
  get_or-take 4 1 sum (omega arith),
  get_or-take 4 2 sum (omega arith),
  get_or-take 4 3 sum (omega arith),
  ==_refl,
)

All-digit_char : (ds : List ℕ) → Digits 32 ds → All (λ b. b < 128) (map digit_char ds)
All-digit_char [] h = tt
All-digit_char (d ∷ ds) h = (ltb→lt _ _ (digit_char-ascii d h.0), All-digit_char ds h.1)

module _ (sha256 : List ℕ → List ℕ) (h : IsSha256 sha256) where
  -- The decoder's second half accepts what the encoder appended.
  check_sum-checksum :
      (version : ℕ) (bytes : List ℕ)
      → version < 32
      → length bytes ≡ 20
      → check_sum sha256 (digit_char version) (bytes ++ checksum sha256 (version ∷ bytes))
        ≡ ok (version, bytes)
  unfolding check_sum checksum
  check_sum-checksum version bytes hv hl =
      rw
        (
          len,
          front,
          back,
          one_digit version hv,
          same_sum-take (sha256 (sha256 (version ∷ bytes))),
          hl,
        )
        refl
    where
      sum : List ℕ
      sum = take 4 (sha256 (sha256 (version ∷ bytes)))

      len : length (bytes ++ sum) ≡ 24
      len = omega (
        arith,
        length-append bytes sum,
        length-take 4 (sha256 (sha256 (version ∷ bytes)))
            (omega (arith, h.digest_length (sha256 (version ∷ bytes)))),
      )

      front : take 20 (bytes ++ sum) ≡ bytes
      front = subst (λ n. take n (bytes ++ sum) ≡ bytes) hl (take-append bytes sum)

      back : drop 20 (bytes ++ sum) ≡ sum
      back = subst (λ n. drop n (bytes ++ sum) ≡ sum) hl (drop-append bytes sum)

  abbrev pub summed : List ℕ → ℕ → List ℕ
  summed bytes version = bytes ++ checksum sha256 (version ∷ bytes)

  -- The text of an address.
  abbrev pub address_text : ℕ → List ℕ → List ℕ
  address_text version bytes =
      b'S' ∷ digit_char version ∷ map digit_char (c32_digits (summed bytes version))

  pub summed-Digits :
      (version : ℕ) (bytes : List ℕ) → Digits 256 bytes → Digits 256 (summed bytes version)
  unfolding checksum
  summed-Digits version bytes hb =
      All-append _ bytes _ hb (All-take _ 4 _ (h.digest_bytes (sha256 (version ∷ bytes))))

  pub length-summed :
      (version : ℕ) (bytes : List ℕ) → length bytes ≡ 20 → length (summed bytes version) ≡ 24
  unfolding checksum
  length-summed version bytes hl = omega (
    arith,
    length-append bytes (take 4 (sha256 (sha256 (version ∷ bytes)))),
    length-take 4 (sha256 (sha256 (version ∷ bytes)))
        (omega (arith, h.digest_length (sha256 (version ∷ bytes)))),
  )

  check_encode-eq :
      (version : ℕ) (bytes : List ℕ)
      → version < 32
      → Digits 256 bytes
      → c32_check_encode_prefixed sha256 version bytes b'S' ≡ ok (address_text version bytes)
  unfolding c32_check_encode_prefixed
  check_encode-eq version bytes hv hb =
      rw (lt→ltb version 32 hv, c32_characters-digit_char version hv)
        (rw
          (c32_encode_to_buffer-eq (summed bytes version)
            (get_max_c32_encode_output_len (length (summed bytes version)) + 2 - 2)
            (summed-Digits version bytes hb) (omega arith))
          refl)

  address_text-ascii :
      (version : ℕ) (bytes : List ℕ)
      → version < 32
      → Digits 256 bytes
      → All (λ b. b < 128) (address_text version bytes)
  address_text-ascii version bytes hv hb = (
    omega arith,
    (
      ltb→lt _ _ (digit_char-ascii version hv),
      All-digit_char _ (c32_digits-Digits (summed bytes version) (summed-Digits version bytes hb)),
    ),
  )

  pub c32_address-eq :
      (version : ℕ) (bytes : List ℕ)
      → version < 32
      → Digits 256 bytes
      → c32_address sha256 version bytes ≡ ok (address_text version bytes)
  unfolding c32_address
  c32_address-eq version bytes hv hb = rw (check_encode-eq version bytes hv hb) (
      rw (from_utf8-ascii (address_text version bytes) (address_text-ascii version bytes hv hb))
        refl)

  pub c32_digits-long_enough :
      (version : ℕ) (bytes : List ℕ)
      → Digits 256 bytes
      → length bytes ≡ 20
      → 10 ≤ length (c32_digits (summed bytes version))
  c32_digits-long_enough version bytes hb hl = omega (
    arith,
    length-bytes_of (c32_digits (summed bytes version)),
    ap length (bytes_of-c32_digits (summed bytes version) (summed-Digits version bytes hb)),
    length-summed version bytes hl,
  )

  c32_check_decode-eq :
      (version : ℕ) (bytes : List ℕ)
      → version < 32
      → Digits 256 bytes
      → length bytes ≡ 20
      → c32_check_decode sha256
          (digit_char version ∷ map digit_char (c32_digits (summed bytes version)))
        ≡ ok (version, bytes)
  unfolding c32_check_decode
  c32_check_decode-eq version bytes hv hb hl =
      let sum = summed bytes version in
      let digits = summed-Digits version bytes hb in
      rw
        (
          is_ascii-map (version ∷ c32_digits sum) (hv, c32_digits-Digits sum digits),
          le→leb 2 (suc (length (map digit_char (c32_digits sum)))) (
              omega (
                arith,
                length-map digit_char (c32_digits sum),
                c32_digits-long_enough version bytes hb hl,
              )),
          c32_decode_ascii-c32_digits sum digits,
        )
        (check_sum-checksum version bytes hv hl)

  -- For a hash function with digests of 32 bytes, a version below 32 and a 20-byte hash,
  -- `c32_address_decode` of `c32_address` returns the version and the hash.
  pub c32_address_decode-c32_address :
      (version : ℕ) (bytes : List ℕ)
      → version < 32
      → Digits 256 bytes
      → length bytes ≡ 20
      → (c32_address sha256 version bytes >>= c32_address_decode sha256) ≡ ok (version, bytes)
  unfolding c32_address_decode skip_first is_boundary
  c32_address_decode-c32_address version bytes hv hb hl = rw (c32_address-eq version bytes hv hb) (
      rw
        (
          lt→leb (length (address_text version bytes)) 5 (
              omega (
                arith,
                length-map digit_char (c32_digits (summed bytes version)),
                c32_digits-long_enough version bytes hb hl,
              )),
          digit_char-ascii version hv,
        )
        (c32_check_decode-eq version bytes hv hb hl))
