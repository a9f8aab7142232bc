-- ===== src/BaseAsn1.antt =====
-- The class BaseASN1.
pub mod Memory
pub mod Tag
pub mod Header
pub mod Integer
pub mod Element
pub mod Strings
pub mod Sequence
pub mod Buffers
pub mod Release
