-- ===== src/Types.antt =====
-- src/tpi: the streams of types and of ids.
pub mod Header
pub mod Items
pub mod Finder
pub mod Primitive
pub mod Records
pub mod Ids
