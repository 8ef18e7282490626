-- ===== src/Tests.antt =====
-- Runs of the definitions on concrete inputs, and an instance of each theorem with hypotheses.
pub mod Address
pub mod Clarity
pub mod Transaction
pub mod Hex
pub mod Memo
pub mod RoundTrips
pub mod Conversions
pub mod Values
pub mod Conditions
pub mod Encoder
