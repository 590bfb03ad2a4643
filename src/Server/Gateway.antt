-- ===== src/Server/Gateway.antt =====
-- server/src/gateway.rs: public connections, and how their bytes reach the agent. A handler runs in
-- pieces, from one `await` to the next; each piece is a function on the state, and what happens
-- between two pieces is any sequence of pieces of other tasks (Gateway/Steps).
pub mod Connection
pub mod Ack
pub mod Steps
