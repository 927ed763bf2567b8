-- ===== src/SdJwt.antt =====
-- swiyu-core/src/sd_jwt.rs and truststatement: disclosures, and the statements made of them.
pub mod Disclosure
pub mod Statement
pub mod Authorised
mod Runs
