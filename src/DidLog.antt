-- ===== src/DidLog.antt =====
-- swiyu-core/src/didlog: the log of a did:tdw or did:webvh identifier.
pub mod Error
pub mod Fields
pub mod Parameters
pub mod Entry
pub mod Edits
pub mod RoundTrip
pub mod Edited
pub mod Hash
pub mod VerifyError
pub mod Proof
pub mod ProofLemmas
pub mod Signed
pub mod Verified
pub mod Chain
pub mod Accepts
pub mod Append
pub mod Builders
pub mod Jsonl
pub mod Final
pub mod Samples
mod Runs
pub mod Verify
