-- ===== src/Relay.antt =====
-- The bytes of a connection from end to end: the bridge of server/src/gateway.rs, the carrier, and the
-- bridge of desktop/src-tauri/src/agent.rs.
pub mod Frames
pub mod ToDevice
pub mod ToClient
pub mod Datagrams
pub mod Handshake
pub mod Opening
pub mod Service
