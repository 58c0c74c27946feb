-- ===== src/Server.antt =====
-- rust/enclave-server/src/main.rs: the handlers, the route table, and what their responses are bound to.
pub mod Data
pub mod Device
pub mod Apple
pub mod Android
pub mod App
pub mod Bound
pub mod Digest
pub mod Responds
pub mod Start
