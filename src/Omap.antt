-- ===== src/Omap.antt =====
-- src/omap.rs: address translation records, their lookup, and conversions between address spaces.
pub mod Search
pub mod Table
pub mod Governing
pub mod Ranges
pub mod Image
pub mod LookupRange
