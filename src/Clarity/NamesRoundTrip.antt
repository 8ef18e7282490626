-- ===== src/Clarity/NamesRoundTrip.antt =====
-- Reading names and principals, in clarity_value/deserialize.rs, behind their wire format.
use stacks_encoding_native_j.Wire.Reader.{◌>>=◌}
use stacks_encoding_native_j.Wire.Reader.{◌>>◌}
use stacks_encoding_native_j.Prelude.{refl, arith, ◌++◌, length, append_assoc}
use stacks_encoding_native_j.Prelude.{le→ltb}
use stacks_encoding_native_j.Text.Utf8.{from_utf8}
use stacks_encoding_native_j.Wire.ByteOrder.{big_endian}
use stacks_encoding_native_j.Wire.Laws.{Reads, Reads-be, Reads-exact, to_be}
use stacks_encoding_native_j.Clarity.Types.{StandardPrincipalData, ClarityName}
use stacks_encoding_native_j.Clarity.Names.{read_clarity_name, read_standard_principal}
use stacks_encoding_native_j.Clarity.Serialize.{
  serialize_name, serialize_principal, IsName, IsPrincipal,
}

pub Reads-name :
    (name : ClarityName)
    → IsName name
    → Reads (read_clarity_name big_endian) (serialize_name name) name
unfolding read_clarity_name from_utf8 ◌>>=◌ to_be ◌>>◌
Reads-name name h pre post =
    rw
      (
        append_assoc (to_be 1 (length name)) name post,
        ← append_assoc pre (to_be 1 (length name)) name,
        Reads-be 1 (length name) (omega arith) pre (name ++ post),
      )
      (rw
        (
          le→ltb 128 (length name) h.name_length,
          Reads-exact (length name) name refl (pre ++ to_be 1 (length name)) post,
          h.name_utf8,
        )
        refl)

pub Reads-principal :
    (p : StandardPrincipalData)
    → IsPrincipal p
    → Reads (read_standard_principal big_endian) (serialize_principal p) p
unfolding read_standard_principal ◌>>=◌ to_be
Reads-principal p h pre post =
    rw
      (
        append_assoc (to_be 1 p.version) p.hash_bytes post,
        ← append_assoc pre (to_be 1 p.version) p.hash_bytes,
        Reads-be 1 p.version (omega arith) pre (p.hash_bytes ++ post),
      )
      (rw (Reads-exact 20 p.hash_bytes h.hash_length (pre ++ to_be 1 p.version) post) refl)
