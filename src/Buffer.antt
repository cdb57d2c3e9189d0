-- ===== src/Buffer.antt =====
-- src/common.rs: `ParseBuffer`, a cursor over a byte slice. An operation takes the buffer and returns
-- its result with the buffer as it leaves it, also where it fails.
pub mod State
pub mod Parse
pub mod Position
pub mod Text
pub mod Yields
pub mod Advance
pub mod Fields
pub mod Padded
pub mod Items
pub mod Loop
pub mod Repeat
pub mod Onward
pub mod Turns
pub mod Laid
