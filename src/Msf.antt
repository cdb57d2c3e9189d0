-- ===== src/Msf.antt =====
-- src/msf: the multi-stream file, which is the container of a PDB.
pub mod PageList
pub mod Source
pub mod Header
pub mod Table
pub mod Lookup
pub mod Stored
pub mod Big
