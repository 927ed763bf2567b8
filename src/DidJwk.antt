-- ===== src/DidJwk.antt =====
-- swiyu-core/src/didjwk: DIDs that hold their key.
pub mod Identifier
pub mod RoundTrip
mod Runs
