-- ===== src/DidDoc.antt =====
-- swiyu-core/src/diddoc: DID documents and the public keys in them.
pub mod Error
pub mod Multibase
pub mod Fields
pub mod Jwk
pub mod Document
pub mod Wire
pub mod Doc
mod Runs
