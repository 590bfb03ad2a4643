-- ===== src/Server/Api.antt =====
-- server/src/api.rs: the handlers of the administration and of the agents, one module per group.
pub mod Login
pub mod Password
pub mod Limit
pub mod Status
pub mod Handlers
pub mod Proxy
pub mod Tables
