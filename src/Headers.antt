-- ===== src/Headers.antt =====
-- core/registration, core/crypto and api/registration: the headers of a service and an endpoint.
pub mod Cipher
pub mod Rows
pub mod Checks
