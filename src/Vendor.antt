-- ===== src/Vendor.antt =====
-- Libraries that the program calls, as interfaces: operations with their documented laws. A child
-- has concrete ones for tests and examples.
pub mod Encoding
pub mod Crypto
pub mod Web
pub mod Plain
pub mod Samples
