-- ===== src/Trust.antt =====
-- swiyu-didtool/src/cmd/trust: the trust statements of a DID, and their verification.
pub mod Error
pub mod Issuer
pub mod StatusLists
pub mod Verify
pub mod Command
pub mod Sources
pub mod Lists
pub mod Trusted
pub mod Verdict
pub mod Complete
mod Runs
