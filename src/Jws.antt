-- ===== src/Jws.antt =====
-- swiyu-core/src/jws.rs: signatures by a key that the header of a JWS holds.
pub mod Debug
pub mod Verify
pub mod Embedded
mod Runs
