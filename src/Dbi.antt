-- ===== src/Dbi.antt =====
-- src/dbi.rs: the stream of debug information.
pub mod Header
pub mod Contributions
pub mod Modules
pub mod SectionMap
pub mod Information
pub mod ExtraStreams
