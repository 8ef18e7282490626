-- ===== src/Entry.antt =====
-- The functions that src/lib.rs exports: they take JavaScript arguments, read and encode.
pub mod Arguments
pub mod Hex
pub mod Loop
pub mod Values
pub mod ValuesLoop
pub mod Conditions
pub mod ConditionsLoop
pub mod ConditionsWire
pub mod Transactions
pub mod Addresses
pub mod Total
pub mod Memo
