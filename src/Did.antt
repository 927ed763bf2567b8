-- ===== src/Did.antt =====
-- swiyu-core/src/did/mod.rs: decentralised identifiers of the methods did:tdw and did:webvh.
pub mod Identifier
pub mod Parse
pub mod RoundTrip
pub mod Url
pub mod Port
mod Runs
