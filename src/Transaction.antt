-- ===== src/Transaction.antt =====
-- stacks_tx/deserialize.rs: transactions and their wire format.
pub mod Types
pub mod Auth
pub mod Multisig
pub mod Serialize
pub mod AuthRoundTrip
pub mod PayloadRoundTrip
pub mod RoundTrip
pub mod Checked
pub mod Payload
pub mod Deserialize
pub mod Codes
pub mod ConditionEncoder
pub mod ConditionAgree
pub mod AuthEncoder
pub mod PayloadEncoder
pub mod Encoder
pub mod Read
pub mod ConditionTotal
pub mod AuthTotal
pub mod EncoderTotal
pub mod RawArgs
pub mod ArgsBuffer
pub mod Frames
pub mod Safety
