-- ===== src/Protocol.antt =====
-- crates/protocol/src/lib.rs: the types that the server, the agent and the HTTP API share, and in
-- `Frame` the frames of the multiplexed carrier.
mod Enums
mod Types
pub mod Frame
pub use Enums.*
pub use Types.*
