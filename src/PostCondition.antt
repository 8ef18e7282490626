-- ===== src/PostCondition.antt =====
-- post_condition/deserialize.rs: post-conditions and their wire format.
pub mod Types
pub mod Deserialize
pub mod Codes
pub mod Encoder
pub mod Frames
pub mod Read
pub mod Serialize
pub mod RoundTrip
