-- ===== src/Wire/ByteOrder.antt =====
-- The readers of the `byteorder` crate, which the deserializers call, as an interface.
use stacks_encoding_native_j.Prelude.{ℕ, ◌≡◌, refl, sym, subst}
use stacks_encoding_native_j.Wire.Cursor.{Cursor}
use stacks_encoding_native_j.Wire.Reader.{Reader, read_be}

-- `read_u8`, and `read_u16`, `read_u32` and `read_u64` with `BigEndian`.
pub record ByteOrder : Type 0 where
  pub read_u8 : Reader ℕ
  pub read_u16 : Reader ℕ
  pub read_u32 : Reader ℕ
  pub read_u64 : Reader ℕ

-- What the crate documents: each reads exactly its bytes, most significant first, and fails as
-- `read_exact` does.
pub record IsByteOrder (b : ByteOrder) : Type 0 where
  pub u8 : (c : Cursor) → b.read_u8 c ≡ read_be 1 c
  pub u16 : (c : Cursor) → b.read_u16 c ≡ read_be 2 c
  pub u32 : (c : Cursor) → b.read_u32 c ≡ read_be 4 c
  pub u64 : (c : Cursor) → b.read_u64 c ≡ read_be 8 c

abbrev pub big_endian : ByteOrder
big_endian = record {
  read_u8 = read_be 1;
  read_u16 = read_be 2;
  read_u32 = read_be 4;
  read_u64 = read_be 8;
}

pub big_endian-IsByteOrder : IsByteOrder big_endian
big_endian-IsByteOrder = record {
  u8 = λ c. refl;
  u16 = λ c. refl;
  u32 = λ c. refl;
  u64 = λ c. refl;
}

big_endian_unique : {b : ByteOrder} → IsByteOrder b → big_endian ≡ b
big_endian_unique {b} h = sym λ i. record {
  read_u8 = λ c. h.u8 c i;
  read_u16 = λ c. h.u16 c i;
  read_u32 = λ c. h.u32 c i;
  read_u64 = λ c. h.u64 c i;
}

-- What holds of one implementation holds of every one.
pub for_byte_order {ℓ} :
    (P : ByteOrder → Type ℓ) → P big_endian → (b : ByteOrder) → IsByteOrder b → P b
for_byte_order P p b h = subst P (big_endian_unique h) p
