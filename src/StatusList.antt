-- ===== src/StatusList.antt =====
-- swiyu-core/src/statuslist/mod.rs: the token status list.
pub mod Error
pub mod Slot
pub mod Bitstring
pub mod Fields
pub mod Refines
pub mod ReadWrite
pub mod Create
pub mod Pointer
pub mod Wire
pub mod Jwt
mod Runs
