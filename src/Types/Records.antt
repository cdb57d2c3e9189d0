-- ===== src/Types/Records.antt =====
-- src/tpi/data.rs: the data of types.
pub mod Attributes
pub mod Shapes
pub mod Parts
pub mod Leaves
pub mod Members
pub mod Loops
pub mod Lists
pub mod Moves
pub mod Ends
pub mod Pointers
pub mod Written
pub mod Padding
pub mod RoundTrip
