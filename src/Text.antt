-- ===== src/Text.antt =====
-- What the program uses of Rust's `str`: UTF-8 validation, lossy decoding, slicing.
pub mod Utf8
pub mod Lossy
pub mod Chars
pub mod Decimal
pub mod Escape
pub mod NonEmpty
pub mod Trim
pub mod Words
