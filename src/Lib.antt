-- ===== src/Lib.antt =====
-- TunnelBridge: a server that gives devices behind NAT public endpoints. An agent keeps one carrier
-- (WSS, QUIC or KCP) to the server; public TCP, UDP and web traffic is multiplexed over it as frames.
-- This library models the server and the agent and proves what makes them correct.
--
-- Parts, from the repository's root, and the files that model them:
--   crates/protocol/src/lib.rs      Protocol/Enums, Protocol/Types; the codec of frames: Protocol/Frame
--   server/src/quic.rs, kcp.rs      `read_record`, `write_record` and the loops on them: Record
--   server/src/config.rs, error.rs  Server/Config (`from_env` in Env), Server/Error
--   server/src/db.rs                the tables, their constraints and statements: Server/Db;
--                                   Db/Migrate, and `bootstrap_admin` in Db/Bootstrap
--   server/src/tunnels.rs           Server/Tunnels: Rows, Validate, Ports, Edit (the assignments of
--                                   `update`), Store (`create`, `update`, `get`, `delete`), Queries, Source
--   server/src/state.rs             Server/State: `AppState`, with the channels that its handles lead to
--   server/src/auth.rs              Server/Headers, Server/Auth: login limit, sessions, CSRF, device tokens
--   server/src/gateway.rs           Server/Listeners, Server/Gateway: Connection (the pieces of a
--                                   connection's life), Ack, Steps (how the pieces interleave);
--                                   Server/Bridge (the two loops of `bridge`)
--   server/src/udp.rs, geoip.rs     Server/Udp, Server/GeoIp
--   server/src/api.rs, quic.rs,     Server/Carrier: start, messages and end of a carrier session;
--   kcp.rs                          Carrier/Direct (admission, loop and writer of QUIC and KCP)
--   server/src/api.rs               Server/Devices (`revoke_device`, `delete_device_permanently`),
--                                   Server/Cleanup, Server/Api: Login, Status (what only reads),
--                                   Handlers (the handlers of tunnels), Proxy (`web_proxy`), Tables
--                                   (runs of the handlers that write to tunnels or devices: what
--                                   every statement keeps, as the record `IsKept`, every run keeps)
--   desktop/src-tauri/src           Agent: Runtime (runtime.rs), Config (config.rs), Local, Dispatch,
--                                   Wss and Reconnect (agent.rs), Direct (agent.rs and kcp.rs), Commands
--                                   (commands.rs; `configure_server` in Commands/Configure)
-- How they interact: a carrier session registers its agent in `agents`. A public connection enters
-- `streams` and `pending` and sends a request with a ticket to the agent's carrier; the agent's answer
-- redeems the ticket, the connection becomes active, and frames are routed to its inbox by identifier.
-- Relay composes server and agent: Handshake opens a connection, ToDevice and ToClient carry its bytes
-- through both bridges and the carrier, and Datagrams carries a datagram. Opening starts a direct carrier
-- from both ends. Service answers the requests of the agent's commands by the server's handlers:
-- Agent/Commands/Enabled states what the client needs of a server as the record `Service`, and
-- Relay/Service/Kept fills it.
-- The operations on tunnels read and write the database; the gateway asks `source_allowed` first.
-- Laws stand in files of their own below the definitions they are about (Store/Laws, Auth/Admin, ...).
-- Prelude has what the parts share; Net has addresses; Examples has concrete instances of the
-- parameters and a concrete state, at which each theorem that has a hypothesis is applied.
--
-- Modelling. A handler that waits is cut into the pieces between its waits, each a function on the
-- state; Gateway/Steps lets the pieces of all tasks interleave in any order. The handlers of requests
-- are one piece each, at whose waits no other task changes the state, but for the task of the listener that
-- a handler starts: whether it has bound its port by then is an argument. Functions that fail return a
-- `Result` with the source's error. Time, random identifiers and secrets are arguments. Texts are lists
-- of code points, a UUID is its 128-bit number, instants are milliseconds. Ports are stored as the source
-- stores them, with the cast to 16 bits written out (`as_u16`); the length of a record is cut to 32 bits
-- as the source cuts it. Maps are association lists in which `insert` replaces.
--
-- Parameters, for what the source takes from elsewhere: the text forms of UUIDs, CIDR lists and times in
-- the database (`Columns`), UUID bytes (`UuidBytes`), `IpNet::contains`, the parsing of addresses and
-- URIs, the hash of a token, Argon2, SQLite's order on texts, the location service, the crate `url`,
-- serde on the messages of a carrier. What is assumed of them is a field of `Columns` or of `UuidBytes`
-- (reading gives back what was written) or a hypothesis of the theorem: that a hash is accepted for its own
-- password, and that serde reads back the messages that it wrote. Examples has functions that satisfy them.
--
-- Fuel: only `read_records`, the loop over a stream, takes fuel; one more than the number of bytes is
-- enough, since a record takes a byte at least, and `read_records_total` says so. `find_port` recurses on
-- the size of the range. All else is structural.
--
-- Not modelled: failures of SQLite and of the network other than a closed channel, the wrap-around of
-- 64-bit counters when they grow (that of UDP sessions is), the capacity of bounded channels, logging by
-- `tracing`, sockets, TLS, the keychain and the disk where they fail, the health checks of
-- server/src/api.rs, the server's own certificate, the dialling of a carrier by the agent, the commands on
-- autostart and updates, the shell of the desktop application, and the web consoles.
pub mod Prelude
pub mod Net
pub mod Protocol
pub mod Record
pub mod Server
pub mod Agent
pub mod Relay
pub mod Examples
