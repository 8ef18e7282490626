-- ===== src/Address/Conversions/RoundTrip.antt =====
-- There and back between Bitcoin and Stacks addresses.
use stacks_encoding_native_j.Prelude.{
  unwrap_or, ok_or, ok_or-eq-ok, map_err-eq-ok, guard-eq-ok, ◌==◌, zero, subst, ℕ, suc, ◌<◌, ◌≡◌,
  refl, sym, ap, ◌∙◌, arith, List, [], ◌∷◌, Option, some, length, take, ◌⊎◌, inl, inr, ok, ◌>>=◌,
  map_err, >>=-eq-ok,
}
use stacks_encoding_native_j.Radix.{Digits}
use stacks_encoding_native_j.Address.StacksAddress.{from_string}
use stacks_encoding_native_j.Address.Bitcoin.{
  unrecognized_version, BitcoinAddress, BitcoinAddressType, BitcoinNetworkType, public_key_hash,
  script_hash, mainnet, testnet, from_b58, version_byte_to_address_type,
  address_type_to_version_byte, c32_failure,
}
use stacks_encoding_native_j.Address.Conversions.{
  IsBase58, stx_to_btc_version_byte, btc_to_stx_addr_version_byte, btc_addr_to_stx_addr,
  btc_addr_to_stx_addr_version, btc_version_of, stx_addr_to_btc_addr, stacks_to_bitcoin,
  bitcoin_to_stacks,
}
use stacks_encoding_native_j.Address.Crockford.Check.{IsSha256, c32_address, c32_address_decode}
use stacks_encoding_native_j.Address.Crockford.RoundTrip.{c32_address_decode-c32_address}

-- A Stacks version and its counterpart in Bitcoin.
abbrev Counterparts : ℕ → ℕ → Type 0
Counterparts version btc =
    ((version ≡ 22) × (btc ≡ 0))
    ⊎ ((version ≡ 20) × (btc ≡ 5))
    ⊎ ((version ≡ 26) × (btc ≡ 111))
    ⊎ ((version ≡ 21) × (btc ≡ 196))

counterparts :
    (version btc : ℕ) → stx_to_btc_version_byte version ≡ some btc → Counterparts version btc
unfolding stx_to_btc_version_byte
counterparts version btc h = ground arith

-- What the code finds for the Bitcoin version.
record Found (version btc : ℕ) : Type 0 where
  addrtype : BitcoinAddressType
  network_id : BitcoinNetworkType
  found : version_byte_to_address_type btc ≡ some (addrtype, network_id)
  back :
      btc_to_stx_addr_version_byte (address_type_to_version_byte addrtype network_id) ≡ some version
  small : version < 32
  byte : btc < 256

Found-at :
    (version btc : ℕ) (a : BitcoinAddressType) (n : BitcoinNetworkType)
    → version_byte_to_address_type btc ≡ some (a, n)
    → btc_to_stx_addr_version_byte (address_type_to_version_byte a n) ≡ some version
    → version < 32
    → btc < 256
    → Found version btc
Found-at version btc a n p q v b = record {
  addrtype = a;
  network_id = n;
  found = p;
  back = q;
  small = v;
  byte = b;
}

Found-version : (version btc : ℕ) → Counterparts version btc → Found version btc
unfolding version_byte_to_address_type btc_to_stx_addr_version_byte address_type_to_version_byte
Found-version version btc h = elim h [
  | inl (p, q) ↦
      rw (p, q) (Found-at 22 0 public_key_hash mainnet refl refl (omega arith) (omega arith))
  | inr (inl (p, q)) ↦
      rw (p, q) (Found-at 20 5 script_hash mainnet refl refl (omega arith) (omega arith))
  | inr (inr (inl (p, q))) ↦
      rw (p, q) (Found-at 26 111 public_key_hash testnet refl refl (omega arith) (omega arith))
  | inr (inr (inr (p, q))) ↦
      rw (p, q) (Found-at 21 196 script_hash testnet refl refl (omega arith) (omega arith))
]

-- A byte that names a kind of Bitcoin address is a counterpart.
recognized :
    (btc : ℕ) (kind : BitcoinAddressType × BitcoinNetworkType)
    → version_byte_to_address_type btc ≡ some kind
    → (btc ≡ 0) ⊎ (btc ≡ 5) ⊎ (btc ≡ 111) ⊎ (btc ≡ 196)
unfolding version_byte_to_address_type
recognized btc kind h = ground arith

counterpart :
    (btc : ℕ)
    → (btc ≡ 0) ⊎ (btc ≡ 5) ⊎ (btc ≡ 111) ⊎ (btc ≡ 196)
    → (version : ℕ) × (stx_to_btc_version_byte version ≡ some btc)
unfolding stx_to_btc_version_byte
counterpart btc (inl e) = rw e (22, refl)
counterpart btc (inr (inl e)) = rw e (20, refl)
counterpart btc (inr (inr (inl e))) = rw e (26, refl)
counterpart btc (inr (inr (inr e))) = rw e (21, refl)

-- The bytes of a Bitcoin address of a known kind.
record IsKnown (bytes : List ℕ) : Type 0 where
  version : ℕ
  hash : List ℕ
  spelled : bytes ≡ version ∷ hash
  hash_length : length hash ≡ 20
  known : (version ≡ 0) ⊎ (version ≡ 5) ⊎ (version ≡ 111) ⊎ (version ≡ 196)

take_all : (n : ℕ) (xs : List ℕ) → length xs ≡ n → take n xs ≡ xs
take_all zero [] h = refl
take_all zero (x ∷ xs) h = absurd (omega arith)
take_all (suc n) [] h = refl
take_all (suc n) (x ∷ xs) h = ap (λ t. x ∷ t) (take_all n xs (omega arith))

module _ (sha256 : List ℕ → List ℕ) (check_encode_slice : List ℕ → List ℕ)
    (from_check : List ℕ → Option (List ℕ)) where
  -- The address of a version byte with a counterpart and its bytes.
  from_b58-Found :
      (input : List ℕ) (version btc : ℕ) (bytes : List ℕ)
      → from_check input ≡ some (btc ∷ bytes)
      → length bytes ≡ 20
      → Found version btc
      → bitcoin_to_stacks sha256 check_encode_slice from_check input
        ≡ map_err c32_failure (c32_address sha256 version bytes)
  unfolding bitcoin_to_stacks from_b58 btc_addr_to_stx_addr btc_addr_to_stx_addr_version
  from_b58-Found input version btc bytes e l f =
      rw (e, l, f.found, f.back, take_all 20 bytes l) refl

  -- The text of a Stacks address whose version has a counterpart.
  stacks_to_bitcoin-Found :
      IsSha256 sha256
      → (version btc : ℕ) (bytes text : List ℕ) → stx_to_btc_version_byte version ≡ some btc
      → Digits 256 bytes
      → length bytes ≡ 20
      → c32_address sha256 version bytes ≡ ok text
      → stacks_to_bitcoin sha256 check_encode_slice from_check text
        ≡ ok (check_encode_slice (btc ∷ bytes))
  unfolding stacks_to_bitcoin from_string stx_addr_to_btc_addr
  stacks_to_bitcoin-Found hs version btc bytes text e d l t =
      let f = Found-version version btc (counterparts version btc e) in
      let read : (c32_address sha256 version bytes >>= c32_address_decode sha256)
          ≡ ok (version, bytes) =
        c32_address_decode-c32_address sha256 hs version bytes f.small d l in
      let decoded : c32_address_decode sha256 text ≡ ok (version, bytes) =
        subst (λ o. (o >>= c32_address_decode sha256) ≡ ok (version, bytes)) t read in
      let named : btc_version_of version ≡ btc =
        unfold btc_version_of in ap (λ o. unwrap_or o version) e in
      rw decoded (ap (λ v. ok (check_encode_slice (v ∷ bytes))) named)

  -- For a hash function with digests of 32 bytes and a base-58 coder whose decoder gives back what
  -- was encoded: the text of a Stacks address of bytes whose version has a counterpart in Bitcoin
  -- is converted to a Bitcoin address, and that is converted back to the text.
  pub bitcoin_to_stacks-stacks_to_bitcoin :
      IsSha256 sha256
      → IsBase58 check_encode_slice from_check
      → (version btc : ℕ) (bytes text : List ℕ) → stx_to_btc_version_byte version ≡ some btc
      → Digits 256 bytes
      → length bytes ≡ 20
      → c32_address sha256 version bytes ≡ ok text
      → (stacks_to_bitcoin sha256 check_encode_slice from_check text
          >>= bitcoin_to_stacks sha256 check_encode_slice from_check)
        ≡ ok text
  bitcoin_to_stacks-stacks_to_bitcoin hs hb version btc bytes text e d l t =
      let f = Found-version version btc (counterparts version btc e) in
      rw
        (
          stacks_to_bitcoin-Found hs version btc bytes text e d l t,
          from_b58-Found (check_encode_slice (btc ∷ bytes)) version btc bytes
              (hb.from_check-check_encode_slice (btc ∷ bytes) (f.byte, d)) l f,
          t,
        )
        refl

  from_b58-IsKnown :
      (input bytes : List ℕ) (address : BitcoinAddress)
      → from_check input ≡ some bytes
      → from_b58 from_check input ≡ ok address
      → IsKnown bytes
  unfolding from_b58
  from_b58-IsKnown input [] address e = rw e (λ h. absurd (cc h))
  from_b58-IsKnown input (v ∷ rest) address e = rw e (λ h.
      let checked = guard-eq-ok (length (v ∷ rest) == 21) _ _ h in
      let (kind, found, made) =
        >>=-eq-ok (ok_or (version_byte_to_address_type v) (unrecognized_version v)) _ checked.1 in
      record {
        version = v;
        hash = rest;
        spelled = refl;
        hash_length = ground (arith, checked.0);
        known = recognized v kind (ok_or-eq-ok _ _ found);
      })

  back :
      IsSha256 sha256
      → (input bytes text : List ℕ) → from_check input ≡ some bytes
      → Digits 256 bytes
      → bitcoin_to_stacks sha256 check_encode_slice from_check input ≡ ok text
      → IsKnown bytes
      → stacks_to_bitcoin sha256 check_encode_slice from_check text ≡ ok (check_encode_slice bytes)
  back hs input bytes text e d h k =
      let (version, c) = counterpart k.version k.known in
      let f = Found-version version k.version (counterparts version k.version c) in
      let digits : Digits 256 (k.version ∷ k.hash) = subst (Digits 256) k.spelled d in
      let made =
        from_b58-Found input version k.version k.hash (e ∙ ap some k.spelled) k.hash_length f in
      rw k.spelled (
        stacks_to_bitcoin-Found hs version k.version k.hash text c digits.1 k.hash_length
          (map_err-eq-ok _ _ (sym made ∙ h)))

  -- For a hash function with digests of 32 bytes: if a base-58 text decodes to bytes and is
  -- converted to a Stacks address, then converting that address back gives the encoding of the same
  -- bytes.
  pub stacks_to_bitcoin-bitcoin_to_stacks :
      IsSha256 sha256
      → (input bytes text : List ℕ) → from_check input ≡ some bytes
      → Digits 256 bytes
      → bitcoin_to_stacks sha256 check_encode_slice from_check input ≡ ok text
      → stacks_to_bitcoin sha256 check_encode_slice from_check text ≡ ok (check_encode_slice bytes)
  unfolding bitcoin_to_stacks
  stacks_to_bitcoin-bitcoin_to_stacks hs input bytes text e d h =
      let (address, p, q) = >>=-eq-ok (from_b58 from_check input) _ h in
      back hs input bytes text e d h (from_b58-IsKnown input bytes address e p)
