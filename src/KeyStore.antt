-- ===== src/KeyStore.antt =====
-- swiyu-didtool/src/keystore.rs: the key pairs of the managed DIDs, on disk.
pub mod Dir
pub mod Entry
pub mod Store
pub mod Snapshots
pub mod Reachable
mod Runs
