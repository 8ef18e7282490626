-- ===== src/Lib.antt =====
-- A library that decodes and encodes data of the Stacks blockchain for JavaScript: c32 addresses,
-- Clarity values, post-conditions and transactions. This development models src/, from the
-- arguments of the exported functions to the objects that they return.
--
-- The parts and how they interact. src/address/c32.rs encodes and decodes the text of addresses;
-- the address type and its versions are in src/address/stacks_address.rs.
-- src/clarity_value/deserialize.rs reads a Clarity value from a cursor over a byte slice, and
-- src/clarity_value/types.rs holds the data; src/post_condition/deserialize.rs and
-- src/stacks_tx/deserialize.rs read post-conditions and transactions with it. All of them report
-- errors as the type of src/serialize_util.rs. The three files neon_encoder.rs turn what was read
-- into JavaScript objects, and the files mod.rs and src/neon_util.rs connect the two: they take the
-- bytes from the arguments, run the loops over arrays and throw the errors. src/address/mod.rs also
-- converts between the addresses of Stacks and of Bitcoin (src/address/bitcoin_address.rs).
--
-- Which file models which part:
--   Address/Crockford/Tables, Defs, DecodeDefs, Check: src/address/c32.rs. `encode_round` and
--     `decode_round` are one round of the loops of `c32_encode_to_buffer` and `c32_decode_ascii`;
--     an output buffer is the list of what was written, the last byte first; `check_sum` is the
--     second half of `c32_check_decode`. Digits, Rounds, Encode, Bytes, Decode, RoundTrip, Sound and
--     BadVersion hold the proofs, on the numbers in positional notation of Radix.
--   Address/StacksAddress: src/address/stacks_address.rs. Address/Bitcoin:
--     src/address/bitcoin_address.rs. Address/Conversions and Address/Principal: the conversions
--     and `decode_clarity_value_to_principal_inner` of src/address/mod.rs.
--   Text: what Rust's standard library does for `String::from_utf8`, `from_utf8_lossy`, a slice of
--     a string, `escape_default`, `trim` and decimal numbers. A string is the list of its bytes.
--   Wire: `std::io::Cursor` (what was consumed, and what is left), readers as functions of a
--     cursor, and src/serialize_util.rs. The crate byteorder is the parameter `ByteOrder`, with its
--     documented behaviour in `IsByteOrder`.
--   Clarity/Types, TypePrefix, Names, Deserialize: src/clarity_value/types.rs and
--     src/clarity_value/deserialize.rs. `read_body` is the match of `inner_deserialize_read` on the
--     prefix. Repr and TypeSignature are the printers of types.rs, with the encoders of src/hex.rs.
--     Encoder is src/clarity_value/neon_encoder.rs. Serialize is a specification of the wire
--     format, Bounds one of the sizes; the other files hold proofs.
--   PostCondition/Types, Codes, Deserialize: src/post_condition/deserialize.rs. Encoder is
--     src/post_condition/neon_encoder.rs. Serialize is a specification of the wire format.
--   Transaction/Types, Codes, Auth, Payload, Deserialize: src/stacks_tx/deserialize.rs.
--     ConditionEncoder, AuthEncoder, PayloadEncoder and Encoder are src/stacks_tx/neon_encoder.rs.
--     Serialize is a specification of the wire format.
--   Memo: src/memo/mod.rs, with the expression of the source and what the crates document in
--     Memo/Words and Memo/Ascii.
--   Js: the JavaScript values that the encoders build through the crate neon. An object is the list
--     of the calls of `set` on it, an array the length given to `JsArray::new` with the items in
--     order; an encoder takes an object and returns it with more properties.
--   Entry/Arguments: src/neon_util.rs and `decode_hex` of src/hex.rs. Entry/Values, Conditions,
--     Transactions, Addresses: the exported functions of the files mod.rs but for that of src/memo,
--     which is in Memo. Entry/Loop is the loop
--     over the items of a slice that src/clarity_value/mod.rs and src/post_condition/mod.rs share.
--   Tests: runs on concrete inputs, and an instance of each theorem with hypotheses.
--
-- A call comes to a value, an error, a panic (an index out of range, a failed `unwrap`) or to no
-- return at all (`hangs`). Bytes are natural numbers; the theorems that need them below 256 say
-- so. Integers of a fixed width keep their wrap-around. Parameters stand for what is not part of
-- the program: SHA-256, whose digests have 32 bytes, SHA-512/256, the crates byteorder, hex_simd,
-- regex and unicode-segmentation, the base-58 coder and the table of printable characters.
--
-- Fuel: `inner_deserialize_read` calls itself one level deeper, and refuses at a depth of 16, so
-- that 17 calls within one another are enough. The loops over a slice are given one pass more than
-- the slice has bytes, and each pass takes at least one byte. All other loops are structural.
--
-- Not modelled: src/address/b58.rs, a copy of a file of the Rust Bitcoin Library, and
-- src/memo/unicode_printable.rs, a copy of a file of the Rust standard library; src/lib.rs, the
-- registration of the exports; the helpers of src/neon_util.rs that nothing calls; the profiling
-- functions; and the allocation of buffers whose length the input announces. JavaScript's own
-- behaviour is not modelled: what `set` and `JsArray::new` do with their arguments, and texts of
-- errors, of which only the kind is kept. The capacity of a c32 buffer is computed with an exact
-- quotient where the code has an `f64`.
pub mod Prelude
pub mod Radix
pub mod Text
pub mod Address
pub mod Wire
pub mod Clarity
pub mod Js
pub mod Memo
pub mod Entry
pub mod PostCondition
pub mod Transaction
pub mod Tests
