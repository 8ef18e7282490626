-- ===== src/Address/Crockford/Sound.antt =====
-- The texts that `c32_address_decode` of address/c32.rs accepts.
use stacks_encoding_native_j.Prelude.{ℕ, ◌-◌, ◌≤◌, ◌<◌, ◌≡◌, refl, sym, ap, ◌∙◌, arith}
use stacks_encoding_native_j.Prelude.{
  List, [], ◌∷◌, ◌++◌, map, length, take, drop, true, none, some,
}
use stacks_encoding_native_j.Prelude.{Outcome, ok, err, panic, >>=-eq-ok, Bool}
use stacks_encoding_native_j.Address.Crockford.Tables.{
  c32_digit, c32_digit_bounded, c32_digit-digit_char, digit_char, digit_char-c32_digit, normalize,
}
use stacks_encoding_native_j.Address.Crockford.RoundTrip.{one_digit, c32_address-eq}
use stacks_encoding_native_j.Prelude.{
  guard-eq-ok, unwrap, unwrap-eq-ok, or_panic, or_panic-eq-ok, get_elem?, leb, ◌==◌, ==→eq, ◌&&◌,
  false, Option, subst, Bool-cases, inl, inr, get_or, if◌then◌else◌, not, take-append-drop,
  length-drop, All-take, leb→le,
}
use stacks_encoding_native_j.Radix.{Digits}
use stacks_encoding_native_j.Text.Utf8.{is_boundary}
use stacks_encoding_native_j.Address.Crockford.Encode.{c32_digits}
use stacks_encoding_native_j.Address.Crockford.Decode.{
  c32_encode-eq, c32_decode_ascii-Digits, c32_encode-c32_decode_ascii,
}
use stacks_encoding_native_j.Address.Crockford.Defs.{
  C32Error, invalid_string, decoded_less_than_4, could_not_convert, not_ascii, size_less_than_2,
  smaller_than_5,
}
use stacks_encoding_native_j.Address.Crockford.DecodeDefs.{c32_decode_ascii, is_ascii, read_digits}
use stacks_encoding_native_j.Address.Crockford.Check.{
  IsSha256, checksum, skip_first, same_sum, check_sum, c32_check_decode, c32_address_decode,
  c32_address,
}

pub decode-bad_digit :
    (version : ℕ) → c32_digit version ≡ none → c32_decode_ascii (version ∷ []) ≡ err invalid_string
unfolding c32_decode_ascii read_digits
decode-bad_digit version h = rw h refl

-- What the checks of the second half let through.
record Checked (sha256 : List ℕ → List ℕ) (char : ℕ) (sum : List ℕ) (version : ℕ) (bytes : List ℕ)
    : Type 0 where
  decoded : List ℕ
  long_enough : leb 4 (length sum) ≡ true
  char_decoded : c32_decode_ascii (char ∷ []) ≡ ok decoded
  same : same_sum (sha256 (sha256 (decoded ++ bytes))) (drop (length sum - 4) sum) ≡ true
  first : get_elem? decoded 0 ≡ some version
  front : take (length sum - 4) sum ≡ bytes
  twenty : (length bytes == 20) ≡ true

check_sum-ok :
    (sha256 : List ℕ → List ℕ) (char : ℕ) (sum : List ℕ) (version : ℕ) (bytes : List ℕ)
    → check_sum sha256 char sum ≡ ok (version, bytes)
    → Checked sha256 char sum version bytes
unfolding check_sum
check_sum-ok sha256 char sum version bytes e =
    let front = take (length sum - 4) sum in
    let (h4, e₁) = guard-eq-ok (leb 4 (length sum)) decoded_less_than_4 _ e in
    let (dv, u, e₂) = >>=-eq-ok (unwrap {F = C32Error} (c32_decode_ascii (char ∷ []))) _ e₁ in
    let (hs, e₃) =
      guard-eq-ok (same_sum (sha256 (sha256 (dv ++ front))) (drop (length sum - 4) sum)) _ _ e₂ in
    let (v, g, e₄) = >>=-eq-ok (or_panic {E = C32Error} (get_elem? dv 0)) _ e₃ in
    let (h20, e₅) = guard-eq-ok (length front == 20) could_not_convert _ e₄ in
    let is_version : v ≡ version = cc e₅ in
    let is_bytes : front ≡ bytes = cc e₅ in
    record {
      decoded = dv;
      long_enough = h4;
      char_decoded = unwrap-eq-ok {F = C32Error} (c32_decode_ascii (char ∷ [])) u;
      same =
          subst (λ t. same_sum (sha256 (sha256 (dv ++ t))) (drop (length sum - 4) sum) ≡ true)
            is_bytes hs;
      first = or_panic-eq-ok {E = C32Error} (get_elem? dv 0) g ∙ ap some is_version;
      front = is_bytes;
      twenty = subst (λ t. (length t == 20) ≡ true) is_bytes h20;
    }

-- The character of the version decodes to the version, which is its digit.
version_digit :
    (char version : ℕ) (decoded : List ℕ)
    → c32_decode_ascii (char ∷ []) ≡ ok decoded
    → get_elem? decoded 0 ≡ some version
    → (version < 32) × (digit_char version ≡ normalize char) × (decoded ≡ version ∷ [])
version_digit char version decoded e f = go (c32_digit char) refl
  where
    go :
        (o : Option ℕ)
        → c32_digit char ≡ o
        → (version < 32) × (digit_char version ≡ normalize char) × (decoded ≡ version ∷ [])
    go none h = cc (e, decode-bad_digit char h)
    go (some d) h =
        let below : d < 32 = c32_digit_bounded char d h in
        let same_text : c32_decode_ascii (char ∷ []) ≡ c32_decode_ascii (digit_char d ∷ []) =
          unfold c32_decode_ascii read_digits in rw (h, c32_digit-digit_char d below) refl in
        let is_one : decoded ≡ d ∷ [] = cc (e, same_text, one_digit d below) in
        let is_version : some d ≡ some version =
          subst (λ t. get_elem? t 0 ≡ some version) is_one f in
        let same : d ≡ version = cc is_version in
        subst (λ t. (t < 32) × (digit_char t ≡ normalize char) × (decoded ≡ t ∷ [])) same
          (below, digit_char-c32_digit char d h, is_one)

and-eq-true : (a b : Bool) → (a && b) ≡ true → (a ≡ true) × (b ≡ true)
and-eq-true true b h = (refl, h)
and-eq-true false b h = cc

same_sum-take :
    (xs ys : List ℕ) → 4 ≤ length xs → length ys ≡ 4 → same_sum xs ys ≡ true → take 4 xs ≡ ys
unfolding same_sum
same_sum-take (x₀ ∷ x₁ ∷ x₂ ∷ x₃ ∷ xs) (y₀ ∷ y₁ ∷ y₂ ∷ y₃ ∷ []) h k e =
    let (e₂', e₃) = and-eq-true _ (x₃ == y₃) e in
    let (e₁', e₂) = and-eq-true _ (x₂ == y₂) e₂' in
    let (e₀, e₁) = and-eq-true (x₀ == y₀) (x₁ == y₁) e₁' in
    cc (==→eq x₀ y₀ e₀, ==→eq x₁ y₁ e₁, ==→eq x₂ y₂ e₂, ==→eq x₃ y₃ e₃)
same_sum-take _ _ h k e = absurd (omega (arith, h, k))

abbrev done : List ℕ → Outcome C32Error (List ℕ)
done bytes = ok bytes

skip_first-eq : (text rest : List ℕ) → skip_first text ≡ ok rest → drop 1 text ≡ rest
unfolding skip_first
skip_first-eq [] rest e = cc
skip_first-eq (c ∷ text) rest e = elim (Bool-cases (is_boundary (get_or 0 text 0))) [
  | inl b ↦ cc (subst (λ t. (if t then ok text else panic) ≡ done rest) b e)
  | inr b ↦ cc (subst (λ t. (if t then ok text else panic) ≡ done rest) b e)
]

module _ (sha256 : List ℕ → List ℕ) (h : IsSha256 sha256) where
  -- The second half: the decoded bytes are those that the encoder encodes.
  Checked-summed :
      (char version : ℕ) (sum bytes : List ℕ)
      → Checked sha256 char sum version bytes
      → (version < 32)
        × (digit_char version ≡ normalize char)
        × (sum ≡ bytes ++ checksum sha256 (version ∷ bytes))
  unfolding checksum
  Checked-summed char version sum bytes k =
      let (below, spelled, one) = version_digit char version k.decoded k.char_decoded k.first in
      let long : 4 ≤ length sum = leb→le 4 (length sum) k.long_enough in
      let cut = length sum - 4 in
      let same : same_sum (sha256 (sha256 (version ∷ bytes))) (drop cut sum) ≡ true =
        subst (λ t. same_sum (sha256 (sha256 (t ++ bytes))) (drop cut sum) ≡ true) one k.same in
      let back : take 4 (sha256 (sha256 (version ∷ bytes))) ≡ drop cut sum =
        same_sum-take (sha256 (sha256 (version ∷ bytes))) (drop cut sum)
          (omega (arith, h.digest_length (sha256 (version ∷ bytes))))
          (omega (arith, length-drop cut sum)) same in
      (below, spelled, cc (take-append-drop cut sum, k.front, back))

  c32_check_decode-ok :
      (text : List ℕ) (version : ℕ) (bytes : List ℕ)
      → c32_check_decode sha256 text ≡ ok (version, bytes)
      → c32_address sha256 version bytes ≡ ok (b'S' ∷ map normalize text)
  unfolding c32_check_decode
  c32_check_decode-ok [] version bytes e = cc
  c32_check_decode-ok (char ∷ rest) version bytes e =
      let (ha, e₁) = guard-eq-ok (is_ascii (char ∷ rest)) not_ascii _ e in
      let (hl, e₂) = guard-eq-ok (leb 2 (length (char ∷ rest))) size_less_than_2 _ e₁ in
      let (sum, decoded, e₃) = >>=-eq-ok (c32_decode_ascii rest) _ e₂ in
      let checked = check_sum-ok sha256 char sum version bytes e₃ in
      let (below, spelled, summed) = Checked-summed char version sum bytes checked in
      let digits : Digits 256 sum = c32_decode_ascii-Digits rest sum decoded in
      let front : Digits 256 bytes =
        subst (Digits 256) checked.front (All-take _ (length sum - 4) sum digits) in
      let written : done (map digit_char (c32_digits sum)) ≡ done (map normalize rest) =
        sym (c32_encode-eq sum digits) ∙ c32_encode-c32_decode_ascii rest sum decoded in
      let same : map digit_char (c32_digits sum) ≡ map normalize rest = cc written in
      c32_address-eq sha256 h version bytes below front
      ∙ ap (λ t. ok (b'S' ∷ digit_char version ∷ map digit_char (c32_digits t))) (sym summed)
      ∙ ap (λ t. ok (b'S' ∷ digit_char version ∷ t)) same
      ∙ ap (λ t. ok (b'S' ∷ t ∷ map normalize rest)) spelled

  -- For a hash function with digests of 32 bytes, a text that `c32_address_decode` accepts, with a
  -- version and bytes, is their address as `c32_address` writes it, but for the first character,
  -- which may be any, and for lower case and the letters O, I and L.
  pub c32_address-c32_address_decode :
      (text : List ℕ) (version : ℕ) (bytes : List ℕ)
      → c32_address_decode sha256 text ≡ ok (version, bytes)
      → c32_address sha256 version bytes ≡ ok (b'S' ∷ map normalize (drop 1 text))
  unfolding c32_address_decode skip_first
  c32_address-c32_address_decode text version bytes e =
      let (hl, e₁) = guard-eq-ok (not (leb (length text) 5)) smaller_than_5 _ e in
      let (rest, skipped, e₂) = >>=-eq-ok (skip_first text) _ e₁ in
      rw (skip_first-eq text rest skipped) (c32_check_decode-ok rest version bytes e₂)
