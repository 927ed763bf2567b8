-- ===== src/DataIntegrity.antt =====
-- swiyu-core/src/proof.rs: Data Integrity proofs as typed values, with the suite eddsa-jcs-2022.
pub mod Error
pub mod Config
pub mod Proof
pub mod Verifies
mod Runs
