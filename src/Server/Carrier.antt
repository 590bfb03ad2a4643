-- ===== src/Server/Carrier.antt =====
-- An agent's carrier session: server/src/api.rs `run_control_socket`, server/src/quic.rs `accept`
-- (kcp.rs has the same steps) and `sync_agent` of server/src/gateway.rs. What serde makes of a text
-- is an argument, `none` where it is no message.
pub mod Reconnect
pub mod Direct
pub mod Greeting
use tunnelbridge.Prelude.{
  ◌-◌, ℕ, ◌+◌, Bool, true, false, not, Option, none, some, List, [], ◌∷◌, ◌==◌, nat_eq,
  if◌then◌else◌, map,
}
use tunnelbridge.Prelude.Text.{Text, text_eq, codes}
use tunnelbridge.Prelude.Map.{get, insert, remove}
use tunnelbridge.Prelude.Result.{ok, err}
use tunnelbridge.Protocol.{
  Uuid, DateTime, Tunnel, CarrierCapabilities, default_capabilities, ActiveTransport, TunnelKind,
  AgentControlMessage, hello, welcome, ping, pong, config_sync, connection_ack, error, Ack,
  protocol_version,
}
use tunnelbridge.Protocol.Frame.{UuidBytes}
use tunnelbridge.Server.Db.{Db, DeviceRow}
use tunnelbridge.Server.State.{AppState, AgentPeer, Counters}
use tunnelbridge.Server.Tunnels.Rows.{Columns}
use tunnelbridge.Server.Tunnels.Queries.{list_for_agent}
use tunnelbridge.Server.Gateway.Connection.{
  send_control, acknowledge_connection, route_carrier_frame,
}

pub server_capabilities : CarrierCapabilities
server_capabilities = record default_capabilities {
  transports = ActiveTransport.quic ∷ ActiveTransport.kcp ∷ ActiveTransport.wss ∷ [];
  tunnel_kinds = TunnelKind.tcp ∷ TunnelKind.udp ∷ TunnelKind.web ∷ [];
}

-- `let _ = tx.send(message)`
unfoldable pub send_lossy : AppState → Uuid → AgentControlMessage → AppState
unfolding send_control
send_lossy s session_id message = elim (send_control s session_id message) [
  | none ↦ s
  | some s' ↦ s'
]

unfoldable pub sync_agent : Columns → AppState → Uuid → AppState
unfolding send_lossy
sync_agent columns s agent_id = elim (list_for_agent columns s.db agent_id) [
  | err _ ↦ s
  | ok items ↦ elim (get s.agents agent_id) [
    | none ↦ s
    | some peer ↦ send_lossy s peer.session_id (config_sync items)
  ]
]

-- `fetch_sub(1)` of a 64-bit counter.
fetch_sub_one : ℕ → ℕ
fetch_sub_one n = if n == 0 then 18446744073709551615 else n - 1

-- The sessions of a transport, counted up and down.
pub count_session : ActiveTransport → (ℕ → ℕ) → Counters → Counters
count_session ActiveTransport.quic f c = record c { quic = f c.quic }
count_session ActiveTransport.kcp f c = record c { kcp = f c.kcp }
count_session ActiveTransport.wss f c = record c { wss = f c.wss }

-- The peer of a new session, whose channels are empty. It takes the place of an older one.
pub attach_peer : AppState → Uuid → Uuid → ActiveTransport → AppState
attach_peer s agent_id session_id transport = record s {
  agents = insert s.agents agent_id (record { session_id = session_id; transport = transport });
  carriers =
      insert s.carriers session_id
        (record { control = []; binary = []; is_open = true; cancelled = false });
}

pub greet : AppState → Uuid → ActiveTransport → DateTime → AppState
unfolding send_lossy count_session
greet s session_id transport server_time =
    send_lossy (record s { counters = count_session transport (λ n. n + 1) s.counters }) session_id
      (welcome protocol_version server_time server_capabilities (some transport))

-- UPDATE devices SET last_seen_at = ? WHERE id = ?
pub seen : Columns → Uuid → DateTime → List DeviceRow → List DeviceRow
seen columns id now [] = []
seen columns id now (d ∷ ds) =
    let rest = seen columns id now ds in
    (if d.id == columns.uuid_text id
      then record d { last_seen_at = some (columns.rfc3339 now) }
      else d)
    ∷ rest

-- The start of `run_control_socket`.
pub attach_wss : Columns → AppState → Uuid → Uuid → DateTime → AppState
unfolding attach_peer seen greet
attach_wss columns s agent_id session_id now =
    let s' = attach_peer s agent_id session_id ActiveTransport.wss in
    let s'' = record s' {
      db = record s'.db { devices = seen columns agent_id now s'.db.devices };
    } in
    sync_agent columns (greet s'' session_id ActiveTransport.wss now) agent_id

-- The start of `accept`, once the device's token and the protocol's version are accepted.
pub attach_direct : Columns → AppState → Uuid → Uuid → ActiveTransport → DateTime → AppState
unfolding attach_peer greet
attach_direct columns s agent_id session_id transport now =
    sync_agent columns
      (greet (attach_peer s agent_id session_id transport) session_id transport now) agent_id

-- `acknowledge_connection` with the fields of a `ConnectionAck`; its result is only logged.
pub take_ack : (Text → Text) → AppState → ℕ → Uuid → Ack → AppState
unfolding acknowledge_connection
take_ack hash_token s now agent_id a =
    (acknowledge_connection hash_token s now a.connection_id agent_id a.ticket a.accepted a.error).1

module _ (hash_token : Text → Text) where
  -- A text message of `run_control_socket`; the Boolean says whether its loop goes on.
  pub handle_text : AppState → ℕ → Uuid → Uuid → Option AgentControlMessage → Bool × AppState
  unfolding take_ack send_lossy
  handle_text s now agent_id session_id none = (true, s)
  handle_text s now agent_id session_id (some (ping sent_at)) =
      (true, send_lossy s session_id (pong sent_at))
  handle_text s now agent_id session_id (some (hello version _ _ _ _)) =
      if version == protocol_version then (true, s) else (
        false,
        send_lossy s session_id (error (codes "protocol_mismatch") (codes "server protocol is 2")),
      )
  handle_text s now agent_id session_id (some (connection_ack a)) =
      (true, take_ack hash_token s now agent_id a)
  handle_text s now agent_id session_id (some _) = (true, s)

-- A control message of `accept`.
pub handle_direct :
    (Text → Text) → AppState → ℕ → Uuid → Uuid → Option AgentControlMessage → AppState
unfolding take_ack send_lossy
handle_direct hash_token s now agent_id session_id (some (ping sent_at)) =
    send_lossy s session_id (pong sent_at)
handle_direct hash_token s now agent_id session_id (some (connection_ack a)) =
    take_ack hash_token s now agent_id a
handle_direct hash_token s now agent_id session_id _ = s

-- `agents.get(&id).is_some_and(|peer| peer.session_id == session_id)`
is_current : AppState → Uuid → Uuid → Bool
is_current s agent_id session_id = elim (get s.agents agent_id) [
  | none ↦ false
  | some peer ↦ peer.session_id == session_id
]

-- The writer task ends, and with it the receiving ends of the session's channels.
close_channels : AppState → Uuid → AppState
close_channels s session_id = elim (get s.carriers session_id) [
  | none ↦ s
  | some c ↦ record s { carriers = insert s.carriers session_id (record c { is_open = false }) }
]

-- The end of a session, in all three carriers.
pub detach : AppState → Uuid → Uuid → ActiveTransport → AppState
unfolding is_current close_channels count_session fetch_sub_one
detach s agent_id session_id transport =
    let s' = close_channels s session_id in
    let s'' = record s' { counters = count_session transport fetch_sub_one s'.counters } in
    if is_current s agent_id session_id
    then record s'' { agents = remove s''.agents agent_id }
    else s''
