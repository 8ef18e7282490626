-- ===== src/Address.antt =====
-- The files of address/.
pub mod Crockford
pub mod StacksAddress
pub mod Bitcoin
pub mod Conversions
pub mod Principal
