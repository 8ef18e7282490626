-- ===== src/Clarity.antt =====
-- clarity_value/: Clarity values and their wire format.
pub mod Types
pub mod TypePrefix
pub mod Names
pub mod Deserialize
pub mod Serialize
pub mod NamesRoundTrip
pub mod BodyRoundTrip
pub mod RoundTrip
pub mod Limits
pub mod Frames
pub mod Kept
pub mod EncoderHex
pub mod EncoderTotal
pub mod Bounds
pub mod TypeSignature
pub mod Repr
pub mod Encoder
pub mod ReprTotal
pub mod InOrder
