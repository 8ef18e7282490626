-- ===== src/Radix.antt =====
-- The reading of a digit string that address/c32.rs and address/b58.rs share: its leading zeros
-- are counted one by one, and what follows them is a number, written most significant digit first.
mod Strip
unfoldable pub use Strip.*
mod Unique
unfoldable pub use Unique.*
