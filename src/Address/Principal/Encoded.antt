-- ===== src/Address/Principal/Encoded.antt =====
-- `decode_clarity_value_to_principal_inner` of address/mod.rs on the wire format of principals.
use stacks_encoding_native_j.Prelude.{
  ℕ, ◌≡◌, refl, ◌∙◌, List, [], ◌∷◌, ◌++◌, append_assoc, codes, ok, ◌>>=◌, map_err,
}
use stacks_encoding_native_j.Wire.Laws.{Reads-byte, at}
use stacks_encoding_native_j.Wire.ByteOrder.{ByteOrder, IsByteOrder, big_endian, for_byte_order}
use stacks_encoding_native_j.Clarity.Types.{Value, ClarityName, StandardPrincipalData}
use stacks_encoding_native_j.Clarity.TypePrefix.{TypePrefix, to_u8, from_u8-to_u8}
use stacks_encoding_native_j.Clarity.Serialize.{
  serialize_value, serialize_principal, serialize_name, IsPrincipal, IsName,
}
use stacks_encoding_native_j.Clarity.NamesRoundTrip.{Reads-name, Reads-principal}
use stacks_encoding_native_j.Address.Crockford.Check.{c32_address}
use stacks_encoding_native_j.Address.Principal.{
  c32_failure, clarity_value_to_principal, principal_of, principal_of_standard,
  principal_of_contract,
}

module _ (sha256 : List ℕ → List ℕ) where
  -- The prefix is read, and the rest goes to its case.
  prefix-at :
      (prefix : TypePrefix) (post : List ℕ)
      → clarity_value_to_principal big_endian sha256 (to_u8 prefix ∷ post)
        ≡ principal_of big_endian sha256 prefix (to_u8 prefix) (at (to_u8 prefix ∷ []) post)
  unfolding clarity_value_to_principal
  prefix-at prefix post = rw (Reads-byte (to_u8 prefix) [] post, from_u8-to_u8 prefix) refl

  standard-at :
      (p : StandardPrincipalData) (post : List ℕ)
      → IsPrincipal p
      → principal_of_standard big_endian sha256 (at (5 ∷ []) (serialize_principal p ++ post))
        ≡ map_err c32_failure (c32_address sha256 p.version p.hash_bytes)
  unfolding principal_of_standard
  standard-at p post h = rw (Reads-principal p h (5 ∷ []) post) refl

  contract-at :
      (issuer : StandardPrincipalData) (name : ClarityName) (post : List ℕ)
      → IsPrincipal issuer
      → IsName name
      → principal_of_contract big_endian sha256
          (at (6 ∷ []) ((serialize_principal issuer ++ serialize_name name) ++ post))
        ≡ (do
          address ← map_err c32_failure (c32_address sha256 issuer.version issuer.hash_bytes)
          ok (name ++ codes "." ++ address))
  unfolding principal_of_contract
  contract-at issuer name post h k =
      rw
        (
          append_assoc (serialize_principal issuer) (serialize_name name) post,
          Reads-principal issuer h (6 ∷ []) (serialize_name name ++ post),
          Reads-name name k (6 ∷ serialize_principal issuer) post,
        )
        refl

  -- With byte readers as documented, and whatever follows: the encoding of a standard principal is
  -- turned into its c32 address, and that of a contract principal into the contract's name, a point
  -- and the issuer's address, in this order; the failure of the address is passed on.
  pub clarity_value_to_principal-serialize :
      (b : ByteOrder)
      → IsByteOrder b
      → (p : StandardPrincipalData) (name : ClarityName) (post : List ℕ) → IsPrincipal p
      → IsName name
      → (clarity_value_to_principal b sha256 (serialize_value (Value.principal_standard p) ++ post)
          ≡ map_err c32_failure (c32_address sha256 p.version p.hash_bytes))
        × (clarity_value_to_principal b sha256 (
              serialize_value (Value.principal_contract (record { issuer = p; name = name }))
              ++ post)
            ≡ (do
              address ← map_err c32_failure (c32_address sha256 p.version p.hash_bytes)
              ok (name ++ codes "." ++ address)))
  clarity_value_to_principal-serialize b hb p name post h k =
      for_byte_order
        (λ o.
          (clarity_value_to_principal o sha256
              (serialize_value (Value.principal_standard p) ++ post)
            ≡ map_err c32_failure (c32_address sha256 p.version p.hash_bytes))
          × (clarity_value_to_principal o sha256 (
                serialize_value (Value.principal_contract (record { issuer = p; name = name }))
                ++ post)
              ≡ (do
                address ← map_err c32_failure (c32_address sha256 p.version p.hash_bytes)
                ok (name ++ codes "." ++ address))))
        (
          unfold serialize_value in
              unfold to_u8 in
              unfold principal_of in
              (prefix-at TypePrefix.principal_standard (serialize_principal p ++ post)
                ∙ standard-at p post h),
          unfold serialize_value in
              unfold to_u8 in
              unfold principal_of in
              (prefix-at TypePrefix.principal_contract _ ∙ contract-at p name post h k),
        )
        b hb
