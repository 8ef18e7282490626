-- ===== src/Clarity/BodyRoundTrip.antt =====
-- Reading, in clarity_value/deserialize.rs, the parts of a value without values inside.
use stacks_encoding_native_j.Wire.Reader.{◌>>◌}
use stacks_encoding_native_j.Prelude.{ℕ, ◌^◌, ◌≤◌, ◌<◌, ◌≡◌, refl, ap, ◌∙◌, arith, List, length}
use stacks_encoding_native_j.Prelude.{flatten, All, le→ltb, ℤ, pos, negsuc}
use stacks_encoding_native_j.Text.Chars.{IsChar, lossy_chars-flatten}
use stacks_encoding_native_j.Wire.Reader.{read_exact, pure, ◌>>=◌, from_be_bytes}
use stacks_encoding_native_j.Wire.Laws.{Reads, Reads-map, Reads-bind, Reads-value, Reads-exact}
use stacks_encoding_native_j.Wire.Laws.{from_be_bytes-to_be, length-to_be, to_be}
use stacks_encoding_native_j.Clarity.Types.{Value, max_value_size, to_string_utf8}
use stacks_encoding_native_j.Clarity.Deserialize.{to_i128, read_size}
use stacks_encoding_native_j.Clarity.Serialize.{from_i128, IsI128, serialize_bytes}

pub to_i128-from_i128 : (z : ℤ) → IsI128 z → (to_i128 (from_i128 z) ≡ z) × (from_i128 z < 2 ^ 128)
unfolding to_i128
to_i128-from_i128 (pos n) h = ground arith
to_i128-from_i128 (negsuc n) h = ground arith

pub Reads-size : (n : ℕ) → n ≤ max_value_size → Reads read_size (to_be 4 n) n
unfolding read_size ◌>>=◌ to_be ◌>>◌
Reads-size n h pre post =
    rw
      (
        Reads-exact 4 (to_be 4 n) (length-to_be 4 n) pre post,
        from_be_bytes-to_be 4 n (omega arith),
        le→ltb max_value_size n h,
      )
      refl

pub to_string_utf8-flatten :
    (chars : List (List ℕ))
    → All IsChar chars
    → to_string_utf8 (flatten chars) ≡ Value.string_utf8 chars
unfolding to_string_utf8
to_string_utf8-flatten chars h = rw (lossy_chars-flatten chars h) refl

pub Reads-int :
    (z : ℤ)
    → IsI128 z
    → Reads
        (read_exact 16 >>= λ bytes. pure (Value.int (to_i128 (from_be_bytes bytes))))
        (to_be 16 (from_i128 z))
        (Value.int z)
Reads-int z h =
    let (back, fits) = to_i128-from_i128 z h in
    Reads-value (read_exact 16 >>= λ bytes. pure (Value.int (to_i128 (from_be_bytes bytes))))
      (to_be 16 (from_i128 z)) (Value.int (to_i128 (from_be_bytes (to_be 16 (from_i128 z)))))
      (Value.int z)
      (ap (λ u. Value.int (to_i128 u)) (from_be_bytes-to_be 16 (from_i128 z) fits)
        ∙ ap Value.int back)
      (Reads-map (read_exact 16) (λ bytes. Value.int (to_i128 (from_be_bytes bytes)))
        (to_be 16 (from_i128 z)) (to_be 16 (from_i128 z))
        (Reads-exact 16 (to_be 16 (from_i128 z)) (length-to_be 16 (from_i128 z))))

pub Reads-uint :
    (n : ℕ)
    → n < 2 ^ 128
    → Reads
        (read_exact 16 >>= λ bytes. pure (Value.uint (from_be_bytes bytes)))
        (to_be 16 n)
        (Value.uint n)
Reads-uint n h =
    Reads-value (read_exact 16 >>= λ bytes. pure (Value.uint (from_be_bytes bytes))) (to_be 16 n)
      (Value.uint (from_be_bytes (to_be 16 n))) (Value.uint n)
      (ap Value.uint (from_be_bytes-to_be 16 n h))
      (Reads-map (read_exact 16) (λ bytes. Value.uint (from_be_bytes bytes)) (to_be 16 n)
        (to_be 16 n) (Reads-exact 16 (to_be 16 n) (length-to_be 16 n)))

-- A length, the bytes, and a value made of them.
pub Reads-sized_value :
    (f : List ℕ → Value) (bytes : List ℕ)
    → length bytes ≤ max_value_size
    → Reads
        (read_size >>= λ len. read_exact len >>= λ bs. pure (f bs))
        (serialize_bytes bytes)
        (f bytes)
Reads-sized_value f bytes h =
    Reads-bind read_size (λ len. read_exact len >>= λ bs. pure (f bs)) (to_be 4 (length bytes))
      bytes (length bytes) (f bytes) (Reads-size (length bytes) h)
      (Reads-map (read_exact (length bytes)) f bytes bytes (Reads-exact (length bytes) bytes refl))
