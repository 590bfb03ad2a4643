-- ===== src/Agent.antt =====
-- The desktop agent, desktop/src-tauri/src: its state, and what it does with a carrier.
pub mod Runtime
pub mod Local
pub mod Dispatch
pub mod Wss
pub mod Direct
pub mod Config
pub mod Commands
pub mod Reconnect
