-- ===== src/Registries.antt =====
-- swiyu-registries: the clients of the three registries, around the requests that reqwest sends.
pub mod Client
pub mod Identifier
pub mod Status
pub mod Trust
