-- ===== src/Server/Tunnels.antt =====
-- server/src/tunnels.rs: the tunnels of the database, and who may use them.
pub mod Rows
pub mod Validate
pub mod Ports
pub mod Edit
pub mod Store
pub mod Queries
pub mod Source
