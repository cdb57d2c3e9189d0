-- ===== src/Annotations.antt =====
-- src/symbol/annotations.rs: the binary annotations of an inline site.
pub mod Opcode
pub mod Item
pub mod Iter
pub mod RoundTrip
