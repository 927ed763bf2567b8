-- ===== src/Tool.antt =====
-- swiyu-didtool: DIDs, their logs and the files of these, and proofs of possession.
pub mod Http
pub mod Resolve
pub mod Log
pub mod Loaded
pub mod Load
pub mod LoadVerified
pub mod Pending
pub mod PopVerify
pub mod PopCheck
pub mod PopVerified
pub mod PopContext
pub mod PopCreate
pub mod PopAccepted
pub mod PopCommand
pub mod Files
pub mod Update
pub mod Updated
pub mod Create
pub mod Written
pub mod WrittenBack
pub mod Deactivated
pub mod Rotated
pub mod Created
pub mod CreateUrl
mod Runs
mod PopCreateRuns
mod CreateRuns
mod LoadRuns
mod PopRuns
mod WrittenRuns
