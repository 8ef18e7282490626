-- ===== src/Wire.antt =====
-- Reading the wire format: Rust's `Cursor` over a byte slice, the big-endian readers of the
-- `byteorder` crate, and the error type of serialize_util.rs.
pub mod Cursor
pub mod Error
pub mod Reader
pub mod ByteOrder
pub mod Laws
pub mod Marked
pub mod Ensures
pub mod Frames
pub mod Consumes
pub mod Taken
