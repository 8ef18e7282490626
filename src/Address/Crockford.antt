-- ===== src/Address/Crockford.antt =====
-- address/c32.rs: the Crockford-style base 32 of Stacks addresses, with a version and a checksum.
-- A byte slice is a list of numbers. `u8` shifts keep their wrap-around; a shift to the right is a
-- division by a power of two.
pub mod Tables
pub mod Defs
pub mod Digits
pub mod Rounds
pub mod Encode
pub mod DecodeDefs
pub mod Bytes
pub mod Decode
pub mod Check
pub mod RoundTrip
pub mod Sound
pub mod BadVersion
