-- ===== src/Modi.antt =====
-- src/modi: what a module says of its source lines.
pub mod Subsections
pub mod Lines
pub mod Checksums
pub mod Safety
