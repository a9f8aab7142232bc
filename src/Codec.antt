-- ===== src/Codec.antt =====
-- The messages and their codecs.
pub mod CString
pub mod Request
pub mod Respond
