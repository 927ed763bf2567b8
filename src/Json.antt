-- ===== src/Json.antt =====
-- serde_json, a library that the program calls, as an interface with its documented behaviour.
pub mod Interface
pub mod Access
pub mod Plain
